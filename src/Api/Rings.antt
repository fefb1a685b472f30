-- ===== src/Api/Rings.antt =====
-- The bounded edges between components. The ring buffers of the crate `rtrb` are not part of the
-- repository: `Rtrb` is what the code calls of them, with what their documentation states. A process
-- call runs with no other party at its edges: one thread runs all components of a graph.
pub mod Laws
use flowd.Base.{
  ℕ, ◌-◌, ◌≡◌, refl, Bool, true, false, Option, List, [], ◌∷◌, ◌++◌, if◌then◌else◌, ltb, head?,
  tail, is_empty, arith, length, take, drop, leb, le→leb, ◌≤◌, none, some,
}

-- `sent` is all that a producer has put in, `room` the free slots that it sees, `queued` what a
-- consumer can still take.
pub record Rtrb (A : Type 0) : Type 1 where
  pub Producer : Type 0
  pub Consumer : Type 0
  pub push : A → Producer → Producer × Bool
  pub pop : Consumer → Consumer × Option A
  pub nothing_queued : Consumer → Bool
  pub is_abandoned : Consumer → Bool
  pub slots : Consumer → ℕ
  pub read_chunk : ℕ → Consumer → Option (Consumer × List A)
  pub sent : Producer → List A
  pub room : Producer → ℕ
  pub queued : Consumer → List A
  -- A push is refused if and only if there is no free slot, and gives its message back.
  pub push_accepted : (a : A) (p : Producer) → (push a p).1 ≡ ltb 0 (room p)
  pub sent-push :
      (a : A) (p : Producer)
      → sent (push a p).0 ≡ (if ltb 0 (room p) then sent p ++ a ∷ [] else sent p)
  pub room-push : (a : A) (p : Producer) → room (push a p).0 ≡ room p - 1
  -- First in, first out.
  pub popped : (c : Consumer) → (pop c).1 ≡ head? (queued c)
  pub queued-pop : (c : Consumer) → queued (pop c).0 ≡ tail (queued c)
  pub is_empty-queued : (c : Consumer) → nothing_queued c ≡ is_empty (queued c)
  pub slots-queued : (c : Consumer) → slots c ≡ length (queued c)
  -- A chunk of as many messages as there are, or fewer, is what the pops would give, once it is committed.
  pub chunk-read_chunk :
      (n : ℕ) (c : Consumer)
      → n ≤ length (queued c)
      → (c' : Consumer) × (read_chunk n c ≡ some (c', take n (queued c)))
        × (queued c' ≡ drop n (queued c))

-- A ring as two lists: it meets what is assumed, and can be run.
pub record Ring (A : Type 0) : Type 0 where
  pub out : List A
  pub free : ℕ

pub record Inlet (A : Type 0) : Type 0 where
  pub waiting : List A
  pub abandoned : Bool

abbrev pub list_push : {A : Type 0} → A → Ring A → Ring A × Bool
list_push a r =
    if ltb 0 r.free then (record { out = r.out ++ a ∷ []; free = r.free - 1 }, true) else (r, false)

module _ {A : Type 0} where
  pub list_push_accepted : (a : A) (r : Ring A) → (list_push a r).1 ≡ ltb 0 r.free
  list_push_accepted a r = ground arith

  pub out-list_push :
      (a : A) (r : Ring A)
      → (list_push a r).0.out ≡ (if ltb 0 r.free then r.out ++ a ∷ [] else r.out)
  out-list_push a r = ground arith

  pub free-list_push : (a : A) (r : Ring A) → (list_push a r).0.free ≡ r.free - 1
  free-list_push a r = ground arith

abbrev pub list_read_chunk : {A : Type 0} → ℕ → Inlet A → Option (Inlet A × List A)
list_read_chunk n c =
    if leb n (length c.waiting)
    then some (record c { waiting = drop n c.waiting }, take n c.waiting)
    else none

pub list_chunk :
    {A : Type 0} (n : ℕ) (c : Inlet A)
    → n ≤ length c.waiting
    → (c' : Inlet A) × (list_read_chunk n c ≡ some (c', take n c.waiting))
      × (c'.waiting ≡ drop n c.waiting)
list_chunk n c h =
    (record c { waiting = drop n c.waiting }, rw (le→leb n (length c.waiting) h) refl, refl)

abbrev pub list_rtrb : (A : Type 0) → Rtrb A
list_rtrb A = record {
  Producer = Ring A;
  Consumer = Inlet A;
  push = list_push;
  pop = λ c. (record c { waiting = tail c.waiting }, head? c.waiting);
  nothing_queued = λ c. is_empty c.waiting;
  is_abandoned = λ c. c.abandoned;
  slots = λ c. length c.waiting;
  read_chunk = list_read_chunk;
  sent = λ r. r.out;
  room = λ r. r.free;
  queued = λ c. c.waiting;
  push_accepted = list_push_accepted;
  sent-push = out-list_push;
  room-push = free-list_push;
  popped = λ c. refl;
  queued-pop = λ c. refl;
  is_empty-queued = λ c. refl;
  slots-queued = λ c. refl;
  chunk-read_chunk = list_chunk;
}
