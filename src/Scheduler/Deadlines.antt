-- ===== src/Scheduler/Deadlines.antt =====
-- src/scheduler.rs: the timers. A deadline that was accepted is neither lost nor early.
pub mod Drain
pub mod Events
use flowd.Base.{
  ℕ, ◌+◌, ◌≤◌, ◌<◌, ◌≡◌, refl, Bool, true, false, ◌&&◌, ◌||◌, Option, none, some, List, [], ◌∷◌,
  arith, ltb, ◌==◌, if◌then◌else◌, Str, str_eq, str_eq_iff, HashMap, get, insert, remove,
  get-insert, get-remove, All, Bool-cases, inl, inr, ◌⊎◌,
}
use flowd.Scheduler.State.{TimerWake, comes_before, push_timer}
use flowd.Scheduler.Timers.{is_latest, prune}

-- There is an entry for the node at the deadline.
unfoldable pub has_entry : Str → ℕ → List TimerWake → Bool
has_entry n w [] = false
has_entry n w (t ∷ ts) = if (t.when == w) && str_eq t.node_id n then true else has_entry n w ts

-- The entries come out of the heap with the earliest deadline first.
abbrev pub IsSorted : List TimerWake → Type 0
IsSorted [] = Unit
IsSorted (t ∷ ts) = All (λ u. t.when ≤ u.when) ts × IsSorted ts

-- Every latest deadline has an entry in the heap.
pub record IsTimed (latest : HashMap ℕ) (ts : List TimerWake) : Type 0 where
  pub kept : (n : Str) (w : ℕ) → get n latest ≡ some w → has_entry n w ts ≡ true
  pub sorted : IsSorted ts

pub before-le : (t u : TimerWake) → comes_before u t ≡ true → u.when ≤ t.when
unfolding comes_before
before-le t u h = ground arith

pub not_before-le : (t u : TimerWake) → comes_before u t ≡ false → t.when ≤ u.when
unfolding comes_before
not_before-le t u h = ground arith

All-le :
    (k : ℕ) (j : ℕ) (ts : List TimerWake)
    → j ≤ k
    → All (λ u. k ≤ u.when) ts
    → All (λ u. j ≤ u.when) ts
All-le k j [] h a = tt
All-le k j (t ∷ ts) h a = (omega arith, All-le k j ts h a.1)

All-push_timer :
    (k : ℕ) (t : TimerWake) (ts : List TimerWake)
    → k ≤ t.when
    → All (λ u. k ≤ u.when) ts
    → All (λ u. k ≤ u.when) (push_timer t ts)
unfolding push_timer
All-push_timer k t [] h a = (h, tt)
All-push_timer k t (u ∷ us) h a = ground (arith, All-push_timer k t us h a.1)

push_timer-IsSorted :
    (t : TimerWake) (ts : List TimerWake) → IsSorted ts → IsSorted (push_timer t ts)
unfolding push_timer
push_timer-IsSorted t [] s = (tt, tt)
push_timer-IsSorted t (u ∷ us) s = elim (Bool-cases (comes_before u t)) [
  | inl yes' ↦
      rw yes' (All-push_timer u.when t us (before-le t u yes') s.0, push_timer-IsSorted t us s.1)
  | inr no' ↦
      rw no' ((not_before-le t u no', All-le u.when t.when us (not_before-le t u no') s.0), s)
]

has_entry-push_timer :
    (n : Str) (w : ℕ) (t : TimerWake) (ts : List TimerWake)
    → has_entry n w (push_timer t ts)
      ≡ (if (t.when == w) && str_eq t.node_id n then true else has_entry n w ts)
unfolding push_timer has_entry
has_entry-push_timer n w t [] = refl
has_entry-push_timer n w t (u ∷ us) = ground (arith, has_entry-push_timer n w t us)

-- A new deadline, with its entry, replaces the node's last one.
pub push-IsTimed :
    (n : Str) (w : ℕ) (latest : HashMap ℕ) (ts : List TimerWake)
    → IsTimed latest ts
    → IsTimed (insert n w latest) (push_timer (record { when = w; node_id = n }) ts)
push-IsTimed n w latest ts v = record {
  kept = λ m x h. ground (
    arith,
    get-insert n m w latest,
    v.kept m x,
    str_eq_iff n m,
    has_entry-push_timer m x (record { when = w; node_id = n }) ts,
  );
  sorted = push_timer-IsSorted (record { when = w; node_id = n }) ts v.sorted;
}

pub remove-IsTimed :
    (n : Str) (latest : HashMap ℕ) (ts : List TimerWake)
    → IsTimed latest ts
    → IsTimed (remove n latest) ts
remove-IsTimed n latest ts v = record {
  kept = λ m x h. ground (arith, get-remove n m latest, v.kept m x);
  sorted = v.sorted;
}

-- An entry that is not the latest of its node keeps no deadline.
pub pop_stale-IsTimed :
    (t : TimerWake) (latest : HashMap ℕ) (ts : List TimerWake)
    → is_latest latest t ≡ false
    → IsTimed latest (t ∷ ts)
    → IsTimed latest ts
unfolding is_latest has_entry
pop_stale-IsTimed t latest ts stale v = record {
  kept = λ m x h. ground (arith, v.kept m x h, str_eq_iff t.node_id m);
  sorted = v.sorted.1;
}

-- Nor does an entry whose node's deadline is forgotten.
pub pop_fired-IsTimed :
    (t : TimerWake) (latest : HashMap ℕ) (ts : List TimerWake)
    → IsTimed latest (t ∷ ts)
    → IsTimed (remove t.node_id latest) ts
unfolding has_entry
pop_fired-IsTimed t latest ts v = record {
  kept = λ m x h. ground (arith, get-remove t.node_id m latest, v.kept m x);
  sorted = v.sorted.1;
}

pub prune-IsTimed :
    (latest : HashMap ℕ) (ts : List TimerWake)
    → IsTimed latest ts
    → IsTimed latest (prune latest ts)
unfolding prune
prune-IsTimed latest [] v = v
prune-IsTimed latest (t ∷ ts) v = elim (Bool-cases (is_latest latest t)) [
  | inl valid ↦ rw valid v
  | inr stale ↦ rw stale (prune-IsTimed latest ts (pop_stale-IsTimed t latest ts stale v))
]

-- No entry of a sorted heap is earlier than the first.
pub first-le :
    (n : Str) (w k : ℕ) (ts : List TimerWake)
    → All (λ u. k ≤ u.when) ts
    → has_entry n w ts ≡ true
    → k ≤ w
unfolding has_entry
first-le n w k [] a h = absurd (ground arith)
first-le n w k (t ∷ ts) a h = ground (arith, first-le n w k ts a.1)
