-- ===== src/Components/Count/Chunks.antt =====
-- components/count/src/count.rs: what the loop adds to the totals.
use flowd.Base.{
  ℕ, zero, suc, ◌+◌, ◌-◌, ◌%◌, ◌^◌, ◌<◌, ◌≤◌, ◌≡◌, refl, sym, ap, ◌∙◌, subst, true, false, List, [],
  ◌∷◌, ◌++◌, append_assoc, min, length, take, drop, length-append, length-take, take-append-drop,
  ltb, ltb→lt, lt→ltb, arith, Bool-cases, inl, inr, ◌⊎◌,
}
use flowd.Api.Context.{add_u64}
use flowd.Api.Message.{FbpMessage}
use flowd.Api.Rings.{Rtrb}
use flowd.Api.Rings.Laws.{nothing_left, something_left}
use flowd.Api.Signals.{Signals, check_signal, Calm, check_signal-Calm}
use flowd.Components.Count.{
  Libraries, Mode, size, weight, add_weights, Count, Counting, total, set_total, count_chunk,
  count_loop,
}

module _ (libs : Libraries) {V : Type 0} where
  -- The sum of what the packets weigh.
  unfoldable pub weights : Mode → List (FbpMessage V) → ℕ
  weights mode [] = 0
  weights mode (m ∷ ms) = weight libs mode m + weights mode ms

  weights-append :
      (mode : Mode) (xs ys : List (FbpMessage V))
      → weights mode (xs ++ ys) ≡ weights mode xs + weights mode ys
  unfolding weights
  weights-append mode [] ys = omega arith
  weights-append mode (x ∷ xs) ys = omega (arith, weights-append mode xs ys)

  weights-packets : (ms : List (FbpMessage V)) → weights Mode.packets ms ≡ length ms
  unfolding weights weight
  weights-packets [] = refl
  weights-packets (m ∷ ms) = omega (arith, weights-packets ms)

  add_weights_lem :
      (mode : Mode) (ms : List (FbpMessage V)) (n : ℕ)
      → n < 2 ^ 64
      → add_weights libs mode ms n ≡ (n + weights mode ms) % 2 ^ 64
  unfolding add_weights weights add_u64
  add_weights_lem mode [] n h = omega arith
  add_weights_lem mode (m ∷ ms) n h =
      omega (arith, add_weights_lem mode ms ((n + weight libs mode m) % 2 ^ 64) (omega arith))

module _ (libs : Libraries) {V : Type 0} (rings : Rtrb (FbpMessage V)) where
  open rings use {
    Producer, Consumer, nothing_queued, slots, read_chunk, queued, is_empty-queued, slots-queued,
    chunk-read_chunk,
  }

  -- The packets `taken` were counted, and nothing else was done.
  pub record IsCounted (mode : Mode) (k k' : Count libs rings) : Type 0 where
    pub taken : List (FbpMessage V)
    pub parts : queued k.inn ≡ taken ++ queued k'.inn
    pub tally :
        total libs rings mode k' ≡ (total libs rings mode k + weights libs mode taken) % 2 ^ 64
    pub same_out : k'.out ≡ k.out
    pub same_pending : k'.pending_reports ≡ k.pending_reports

  one_chunk :
      (mode : Mode) (ms : List (FbpMessage V)) (k : Count libs rings)
      → total libs rings mode k < 2 ^ 64
      → total libs rings mode (count_chunk libs rings mode ms k)
        ≡ (total libs rings mode k + weights libs mode ms) % 2 ^ 64
  unfolding total count_chunk set_total add_u64
  one_chunk Mode.packets ms k h = omega (arith, weights-packets libs ms)
  one_chunk size ms k h = add_weights_lem libs size ms k.packetsize h
  one_chunk Mode.sum ms k h = add_weights_lem libs Mode.sum ms k.sum h

  unchanged :
      (mode : Mode) (k k' : Count libs rings)
      → total libs rings mode k < 2 ^ 64
      → queued k'.inn ≡ queued k.inn
      → total libs rings mode k' ≡ total libs rings mode k
      → k'.out ≡ k.out
      → k'.pending_reports ≡ k.pending_reports
      → IsCounted mode k k'
  unfolding weights
  unchanged mode k k' h q t o p = record {
    taken = [];
    parts = sym q;
    tally = omega (arith, t);
    same_out = o;
    same_pending = p;
  }

  with_signals :
      (mode : Mode) (k : Count libs rings) (sg : Signals V)
      → total libs rings mode (record k { signals = sg }) ≡ total libs rings mode k
  unfolding total
  with_signals Mode.packets k sg = refl
  with_signals size k sg = refl
  with_signals Mode.sum k sg = refl

  with_inn :
      (mode : Mode) (k : Count libs rings) (c : Consumer)
      → total libs rings mode (record k { inn = c }) ≡ total libs rings mode k
  unfolding total
  with_inn Mode.packets k c = refl
  with_inn size k c = refl
  with_inn Mode.sum k c = refl

  chunk_keeps :
      (mode : Mode) (ms : List (FbpMessage V)) (k : Count libs rings)
      → let k' = count_chunk libs rings mode ms k in
        (k'.inn ≡ k.inn)
        × (k'.out ≡ k.out)
        × (k'.pending_reports ≡ k.pending_reports)
        × (k'.signals ≡ k.signals)
  unfolding count_chunk set_total
  chunk_keeps Mode.packets ms k = (refl, refl, refl, refl)
  chunk_keeps size ms k = (refl, refl, refl, refl)
  chunk_keeps Mode.sum ms k = (refl, refl, refl, refl)

  one_more :
      (mode : Mode) (ms : List (FbpMessage V)) (k k₁ k' : Count libs rings)
      → queued k.inn ≡ ms ++ queued k₁.inn
      → total libs rings mode k₁ ≡ (total libs rings mode k + weights libs mode ms) % 2 ^ 64
      → k₁.out ≡ k.out
      → k₁.pending_reports ≡ k.pending_reports
      → IsCounted mode k₁ k'
      → IsCounted mode k k'
  one_more mode ms k k₁ k' q t o p is = record {
    taken = ms ++ is.taken;
    parts = q ∙ ap (λ r. ms ++ r) is.parts ∙ sym (append_assoc ms is.taken (queued k'.inn));
    tally = omega (arith, is.tally, t, weights-append libs mode ms is.taken);
    same_out = is.same_out ∙ o;
    same_pending = is.same_pending ∙ p;
  }

  -- The loop counts until the budget or the packets end.
  pub record IsLooped (mode : Mode) (k : Count libs rings) (work : ℕ) (s : Counting libs rings)
      : Type 0 where
    pub counted : IsCounted mode k s.counter
    pub not_stopped : s.stopped ≡ false
    pub worked : s.work ≡ work + length counted.taken
    pub ended : (s.budget ≡ 0) ⊎ (queued s.counter.inn ≡ [])

  nothing_counted :
      (mode : Mode) (b : ℕ) (k : Count libs rings) (work : ℕ)
      → total libs rings mode k < 2 ^ 64
      → (b ≡ 0) ⊎ (queued k.inn ≡ [])
      → IsLooped mode k work (record { counter = k; budget = b; work = work; stopped = false })
  unfolding unchanged
  nothing_counted mode b k work h ended = record {
    counted = unchanged mode k k h refl refl refl refl;
    not_stopped = refl;
    worked = omega arith;
    ended = ended;
  }

  -- A chunk, and the rest of the loop.
  after_chunk :
      (mode : Mode) (count : ℕ) (k : Count libs rings) (c : Consumer) (sg : Signals V) (work : ℕ)
      (s : Counting libs rings)
      → total libs rings mode k < 2 ^ 64
      → queued c ≡ drop count (queued k.inn)
      → IsLooped mode
          (count_chunk libs rings mode
            (take count (queued k.inn))
            (record k { signals = sg; inn = c }))
          (work + length (take count (queued k.inn)))
          s
      → IsLooped mode k work s
  unfolding one_more
  after_chunk mode count k c sg work s h rest is =
      let ms = take count (queued k.inn) in
      let k₁ : Count libs rings = record k { signals = sg; inn = c } in
      let (same_inn, same_out, same_pending, same_signals) = chunk_keeps mode ms k₁ in
      let same_total : total libs rings mode k₁ ≡ total libs rings mode k =
        with_inn mode (record k { signals = sg }) c ∙ with_signals mode k sg in
      record {
        counted =
            one_more mode ms k (count_chunk libs rings mode ms k₁) s.counter
              (sym (take-append-drop count (queued k.inn))
                ∙ ap (λ q. ms ++ q) (sym rest ∙ ap queued (sym same_inn)))
              (one_chunk mode ms k₁ (omega (arith, h, same_total))
                ∙ ap (λ t. (t + weights libs mode ms) % 2 ^ 64) same_total)
              same_out same_pending is.counted;
        not_stopped = is.not_stopped;
        worked = omega (arith, is.worked, length-append ms is.counted.taken);
        ended = is.ended;
      }

  chunk_below :
      (mode : Mode) (ms : List (FbpMessage V)) (k : Count libs rings) (sg : Signals V)
      (c : Consumer)
      → total libs rings mode k < 2 ^ 64
      → total libs rings mode (count_chunk libs rings mode ms (record k { signals = sg; inn = c }))
        < 2 ^ 64
  chunk_below mode ms k sg c h =
      let same : total libs rings mode (record k { signals = sg; inn = c })
          ≡ total libs rings mode k =
        with_inn mode (record k { signals = sg }) c ∙ with_signals mode k sg in
      omega (arith, one_chunk mode ms (record k { signals = sg; inn = c }) (omega (arith, h, same)))

  pub count_loop-IsLooped :
      (mode : Mode) (n b : ℕ) (k : Count libs rings) (work : ℕ)
      → b ≤ n
      → total libs rings mode k < 2 ^ 64
      → Calm k.signals
      → IsLooped mode k work (count_loop libs rings mode n b k work)
  unfolding count_loop
  count_loop-IsLooped mode zero b k work le h calm =
      nothing_counted mode b k work h (inl (omega arith))
  count_loop-IsLooped mode (suc n) b k work le h calm = elim (Bool-cases (ltb 0 b)) [
    | inr none_left ↦
        rw (none_left, count_loop)
          (nothing_counted mode b k work h (inl (ground (arith, none_left))))
    | inl some_left ↦ elim (Bool-cases (nothing_queued k.inn)) [
      | inl q ↦
          rw (some_left, count_loop)
            (rw q (nothing_counted mode b k work h (inr (nothing_left rings k.inn q))))
      | inr q ↦
          let count = min (slots k.inn) b in
          let (first, calm') = check_signal-Calm k.signals calm in
          let (c, chunk, rest) = chunk-read_chunk count k.inn (omega (arith, slots-queued k.inn)) in
          let some_there = something_left rings k.inn q in
          let pos : ltb 0 count ≡ true =
            lt→ltb 0 count (omega (arith, some_there, slots-queued k.inn, ltb→lt 0 b some_left)) in
          let ms = take count (queued k.inn) in
          let sg = (check_signal k.signals).0 in
          let (same_inn, same_out, same_pending, same_signals) =
            chunk_keeps mode ms (record k { signals = sg; inn = c }) in
          let k₁ = count_chunk libs rings mode ms (record k { signals = sg; inn = c }) in
          let fewer : b - length ms ≤ n =
            omega
              (arith, length-take count (queued k.inn), ltb→lt 0 count pos, slots-queued k.inn) in
          rw (some_left, count_loop)
            (rw q (
              rw first (
                rw pos (
                  rw chunk (
                    after_chunk mode count k c sg work _ h rest (
                      count_loop-IsLooped mode n (b - length ms) k₁ (work + length ms) fewer
                        (chunk_below mode ms k sg c h) (subst Calm (sym same_signals) calm')))))))
    ]
  ]
