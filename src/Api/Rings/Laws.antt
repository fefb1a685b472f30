-- ===== src/Api/Rings/Laws.antt =====
-- The edges between components: what one push and one pop do, by the answer they give.
use flowd.Base.{
  is_empty, length, ℕ, suc, ◌<◌, ◌≤◌, ◌≡◌, refl, sym, ◌∙◌, true, false, none, some, List, [], ◌∷◌,
  ◌++◌, head?, tail, arith,
}
use flowd.Api.Rings.{Rtrb}

module _ {A : Type 0} (rings : Rtrb A) where
  open rings use {
    Producer, Consumer, push, pop, nothing_queued, sent, room, queued, push_accepted, sent-push,
    room-push, popped, queued-pop, is_empty-queued,
  }

  pub accepted :
      (x : A) (p : Producer)
      → (push x p).1 ≡ true
      → (0 < room p) × (sent (push x p).0 ≡ sent p ++ x ∷ [])
  accepted x p h =
      (ground (arith, push_accepted x p), ground (arith, push_accepted x p, sent-push x p))

  pub refused :
      (x : A) (p : Producer)
      → (push x p).1 ≡ false
      → (room (push x p).0 ≡ 0) × (sent (push x p).0 ≡ sent p)
  refused x p h = (
    ground (arith, push_accepted x p, room-push x p),
    ground (arith, push_accepted x p, sent-push x p),
  )

  -- What is refused had no free slot.
  pub refused_room : (x : A) (p : Producer) → (push x p).1 ≡ false → room p ≡ 0
  refused_room x p h = ground (arith, push_accepted x p)

  -- A free slot less, whether there was one or not.
  pub room_left : (x : A) (p : Producer) (b : ℕ) → suc b ≤ room p → b ≤ room (push x p).0
  room_left x p b h = omega (arith, room-push x p)

  pub pop_none : (c : Consumer) → (pop c).1 ≡ none → queued (pop c).0 ≡ queued c
  pop_none c e = queued-pop c ∙ on_queue (queued c) (sym (popped c) ∙ e)
    where
      on_queue : (xs : List A) → head? xs ≡ none → tail xs ≡ xs
      on_queue [] h = refl
      on_queue (x ∷ xs) h = absurd (ground (arith, h))

  pub pop_some : (c : Consumer) (x : A) → (pop c).1 ≡ some x → queued c ≡ x ∷ queued (pop c).0
  pop_some c x e = on_queue (queued c) (sym (popped c) ∙ e) ∙ ap_cons (sym (queued-pop c))
    where
      ap_cons : {xs ys : List A} → xs ≡ ys → x ∷ xs ≡ x ∷ ys
      ap_cons h = cc (h)

      on_queue : (xs : List A) → head? xs ≡ some x → xs ≡ x ∷ tail xs
      on_queue [] h = absurd (ground (arith, h))
      on_queue (y ∷ xs) h = ground (arith, h)

  -- What the answers say of the packets that wait.
  pub drained : (c : Consumer) → (pop c).1 ≡ none → queued c ≡ []
  drained c e = on_queue (queued c) (sym (popped c) ∙ e)
    where
      on_queue : (xs : List A) → head? xs ≡ none → xs ≡ []
      on_queue [] h = refl
      on_queue (x ∷ xs) h = absurd (ground (arith, h))

  pub nothing_left : (c : Consumer) → nothing_queued c ≡ true → queued c ≡ []
  nothing_left c e = on_queue (queued c) (sym (is_empty-queued c) ∙ e)
    where
      on_queue : (xs : List A) → is_empty xs ≡ true → xs ≡ []
      on_queue [] h = refl
      on_queue (x ∷ xs) h = absurd (ground (arith, h))

  pub something_left : (c : Consumer) → nothing_queued c ≡ false → 0 < length (queued c)
  something_left c e = on_queue (queued c) (sym (is_empty-queued c) ∙ e)
    where
      on_queue : (xs : List A) → is_empty xs ≡ false → 0 < length xs
      on_queue [] h = absurd (ground (arith, h))
      on_queue (x ∷ xs) h = omega arith
