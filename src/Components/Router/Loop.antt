-- ===== src/Components/Router/Loop.antt =====
-- components/router/src/router.rs: the loop of `process` delivers what it takes.
use flowd.Base.{
  ℕ, zero, suc, ◌+◌, ◌≤◌, ◌≡◌, refl, ap, Bool, true, false, Option, none, some, List, [], ◌∷◌,
  length, Str, HashMap, get, arith, inl, inr,
}
use flowd.Api.Message.{FbpMessage}
use flowd.Api.Rings.{Rtrb}
use flowd.Api.Rings.Laws.{drained, nothing_left, something_left, pop_some}
use flowd.Components.Router.{Libraries}
use flowd.Components.Router.Process.{input_text, rounds}
use flowd.Components.Router.Rounds.{
  port_of, sent_as, Delivers, nothing-IsDelivered, one_lost, one_more, delivered-Reach,
  dropped-Reach,
}

module _ (libs : Libraries) {V : Type 0} (rings : Rtrb (FbpMessage V)) where
  open rings use {
    Producer, Consumer, push, pop, nothing_queued, sent, room, queued, is_empty-queued, popped,
  }

  abbrev read : FbpMessage V → Str
  read = input_text libs rings

  -- The rounds that are left, from any state with no more packets than rounds.
  abbrev Later : (Str → Str) → ℕ → Type 0
  Later route n =
      (b : ℕ) (c : Consumer) (o : HashMap Producer) (work : ℕ)
      → length (queued c) ≤ n
      → Delivers libs rings route read c o (rounds libs rings route n b c o work)

  one_round :
      (route : Str → Str) (n b : ℕ) (c : Consumer) (o : HashMap Producer) (work : ℕ)
      → length (queued c) ≤ suc n
      → Later route n
      → Delivers libs rings route read c o (rounds libs rings route (suc n) (suc b) c o work)
  unfolding rounds port_of sent_as
  one_round route n b c o work h later = by_empty (nothing_queued c) refl
    where
      Goal : Type 0
      Goal = Delivers libs rings route read c o (rounds libs rings route (suc n) (suc b) c o work)

      fewer : (m : FbpMessage V) → (pop c).1 ≡ some m → length (queued (pop c).0) ≤ n
      fewer m e = omega (arith, h, ap length (pop_some rings c m e))

      by_pushed :
          (m : FbpMessage V) (p₀ : Producer) (taken : Bool)
          → nothing_queued c ≡ false
          → (pop c).1 ≡ some m
          → get (port_of libs rings route read m) o ≡ some p₀
          → (push (sent_as libs rings route read m) p₀).1 ≡ taken
          → Goal
      by_pushed m p₀ true q e g t =
          rw (q, rounds)
            (rw e (
              rw g (
                rw t (
                  one_more libs rings route read c _ _ o _ _ m _ (pop_some rings c m e)
                    (λ ms. delivered-Reach libs rings route read o _ m p₀ ms g t)
                    (later b (pop c).0 _ (work + 1) (fewer m e))))))
      by_pushed m p₀ false q e g t =
          rw (q, rounds)
            (rw e (
              rw g (rw t (one_lost libs rings route read c _ o m p₀ _ (pop_some rings c m e) g t))))

      by_port :
          (m : FbpMessage V) (found : Option Producer)
          → nothing_queued c ≡ false
          → (pop c).1 ≡ some m
          → get (port_of libs rings route read m) o ≡ found
          → Goal
      by_port m (some p₀) q e g = by_pushed m p₀ _ q e g refl
      by_port m none q e g =
          rw (q, rounds)
            (rw e (
              rw g (
                one_more libs rings route read c _ _ o o _ m _ (pop_some rings c m e)
                  (λ ms. dropped-Reach libs rings route read o _ m ms g)
                  (later (suc b) (pop c).0 o work (fewer m e)))))

      by_popped : (x : Option (FbpMessage V)) → nothing_queued c ≡ false → (pop c).1 ≡ x → Goal
      by_popped (some m) q e = by_port m _ q e refl
      by_popped none q e =
          absurd (omega (arith, something_left rings c q, ap length (drained rings c e)))

      by_empty : (x : Bool) → nothing_queued c ≡ x → Goal
      by_empty true q =
          rw (q, rounds)
            (nothing-IsDelivered libs rings route read c _ o _ refl (inr (nothing_left rings c q)))
      by_empty false q = by_popped _ q refl

  -- With as many rounds as packets wait, or more, the loop ends as in the code.
  pub rounds-IsDelivered : (route : Str → Str) (n : ℕ) → Later route n
  unfolding rounds
  rounds-IsDelivered route zero b c o work h =
      nothing-IsDelivered libs rings route read c _ o _ refl (inr (no_more (queued c) h))
    where
      no_more : (xs : List (FbpMessage V)) → length xs ≤ 0 → xs ≡ []
      no_more [] h = refl
      no_more (x ∷ xs) h = absurd (omega arith)
  rounds-IsDelivered route (suc n) zero c o work h =
      nothing-IsDelivered libs rings route read c _ o _ refl (inl refl)
  rounds-IsDelivered route (suc n) (suc b) c o work h =
      one_round route n b c o work h (rounds-IsDelivered route n)
