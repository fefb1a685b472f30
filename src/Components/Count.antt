-- ===== src/Components/Count.antt =====
-- components/count/src/count.rs: `CountComponent`. The crates `url` and `atoi` are not part of the
-- repository. The clock is read for the log only. `usize` and `u64` are 64 bits wide and wrap.
pub mod Chunks
pub mod Reports
pub mod Totals
use flowd.Base.{
  ℕ, zero, suc, ◌+◌, ◌-◌, Bool, true, false, not, ◌&&◌, ◌==◌, Option, none, some, List, [], ◌∷◌,
  ◌++◌, min, if◌then◌else◌, ltb, length, is_empty, Str, bytes, str_eq, HashMap, get,
}
use flowd.Api.Context.{ProcessResult, no_work, finished, add_u64}
use flowd.Api.Message.{FbpMessage, raw, text}
use flowd.Api.Rings.{Rtrb}
use flowd.Api.Signals.{Signals, check_signal, signal_text}
use flowd.Api.Sink.{digits}
use flowd.Components.Muxer.{report}
use flowd.Components.Repeat.{Flushed, flush}

-- `query_pairs` is `Url::parse`, then the pairs of the query; `atoi` reads the digits that a text begins
-- with.
pub record Libraries : Type 0 where
  pub query_pairs : Str → Option (List (Str × Str))
  pub atoi : Str → Option ℕ

pub data Mode : Type 0 where
  packets size sum : Mode

-- `to_string` of a number.
unfoldable pub display : ℕ → Str
unfolding digits
display n = digits (suc n) n

unfoldable pub strip_question : Str → Str
strip_question [] = []
strip_question (c ∷ s) = if c == b'?' then s else c ∷ s

unfoldable pub mode_named : Str → Option Mode
mode_named s =
    if str_eq s (bytes "packets")
    then some packets
    else if str_eq s (bytes "size")
    then some size
    else if str_eq s (bytes "sum")
    then some sum
    else none

module _ (libs : Libraries) {V : Type 0} where
  -- What one packet adds in each mode.
  unfoldable pub weight : Mode → FbpMessage V → ℕ
  unfolding signal_text
  weight packets m = 1
  weight size (raw b) = length b
  weight size (text s) = length s
  weight size _ = 0
  weight sum m = elim (libs.atoi (signal_text m)) [ some n ↦ n | none ↦ 0 ]

  -- The loops over a chunk.
  unfoldable pub add_weights : Mode → List (FbpMessage V) → ℕ → ℕ
  unfolding weight add_u64
  add_weights mode [] n = n
  add_weights mode (m ∷ ms) n = add_weights mode ms (add_u64 n (weight mode m))

module _ (libs : Libraries) {V : Type 0} (rings : Rtrb (FbpMessage V)) where
  open rings use {Producer, Consumer, push, pop, nothing_queued, is_abandoned, slots, read_chunk}

  -- `outputs` is what was handed to the client through the handle of the graph.
  pub record Count : Type 0 where
    pub conf : Consumer
    pub inn : Consumer
    pub out : Producer
    pub signals : Signals V
    pub outputs : List Str
    pub mode : Option Mode
    pub packets : ℕ
    pub packetsize : ℕ
    pub sum : ℕ
    pub pending_reports : List (FbpMessage V)

  -- The number that a mode counts with.
  unfoldable pub total : Mode → Count → ℕ
  total Mode.packets k = k.packets
  total size k = k.packetsize
  total Mode.sum k = k.sum

  unfoldable pub set_total : Mode → ℕ → Count → Count
  set_total Mode.packets n k = record k { packets = n }
  set_total size n k = record k { packetsize = n }
  set_total Mode.sum n k = record k { sum = n }

  -- A chunk: packets are counted at once, the rest one by one.
  unfoldable pub count_chunk : Mode → List (FbpMessage V) → Count → Count
  unfolding total set_total add_weights add_u64
  count_chunk Mode.packets ms k = set_total Mode.packets (add_u64 k.packets (length ms)) k
  count_chunk size ms k = set_total size (add_weights libs size ms k.packetsize) k
  count_chunk Mode.sum ms k = set_total Mode.sum (add_weights libs Mode.sum ms k.sum) k

  unfoldable pub emit_final_count : Mode → Count → Count
  unfolding total display
  emit_final_count mode k =
      let said : Str = display (total mode k) in
      let (p, sent) = push (text said) k.out in
      record k {
        out = p;
        pending_reports = if sent then k.pending_reports else k.pending_reports ++ text said ∷ [];
        outputs = k.outputs ++ said ∷ [];
      }

  -- The variables of the loop.
  pub record Counting : Type 0 where
    pub counter : Count
    pub budget : ℕ
    pub work : ℕ
    pub stopped : Bool

  -- Some rounds of the loop; each takes one from the budget at least.
  unfoldable pub count_loop : Mode → ℕ → ℕ → Count → ℕ → Counting
  unfolding check_signal count_chunk
  count_loop mode zero b k work = record { counter = k; budget = b; work = work; stopped = false }
  count_loop mode (suc n) b k work =
      let (signals, stop) = check_signal k.signals in
      let k' : Count = record k { signals = signals } in
      let count = min (slots k.inn) b in
      elim (ltb 0 b && not (nothing_queued k.inn)) [
        | false ↦ record { counter = k; budget = b; work = work; stopped = false }
        | true ↦ elim stop [
          | true ↦ record { counter = k'; budget = b; work = work; stopped = true }
          | false ↦ elim (ltb 0 count) [
            | false ↦ record { counter = k'; budget = b; work = work; stopped = false }
            | true ↦ elim (read_chunk count k.inn) [
              | none ↦ record { counter = k'; budget = b; work = work; stopped = false }
              | some (c, chunk) ↦
                  count_loop mode n (b - length chunk)
                    (count_chunk mode chunk (record k' { inn = c })) (work + length chunk)
            ]
          ]
        ]
      ]

  -- The end of a call: a report when the inport has run dry, and the last one at its end.
  unfoldable pub conclude : Mode → Counting → Count × ℕ × ProcessResult
  unfolding emit_final_count report
  conclude mode s =
      let dry : Bool =
        ltb 0 s.work && nothing_queued s.counter.inn && not (is_abandoned s.counter.inn) in
      let k : Count = if dry then emit_final_count mode s.counter else s.counter in
      if s.stopped
      then (emit_final_count mode s.counter, s.budget, finished)
      else if is_abandoned k.inn && is_empty k.pending_reports
      then (emit_final_count mode k, s.budget, finished)
      else (k, s.budget, report s.work)

  -- A call of a component that is configured.
  unfoldable pub count_with : Mode → Count → ℕ → Count × ℕ × ProcessResult
  unfolding count_loop conclude emit_final_count check_signal flush
  count_with mode k budget =
      let f : Flushed rings = flush rings budget k.pending_reports k.out 0 in
      let (signals, stop) = check_signal k.signals in
      let k' : Count = record k { out = f.out; pending_reports = f.pending; signals = signals } in
      if stop
      then (emit_final_count mode k', f.budget, finished)
      else conclude mode (count_loop mode f.budget f.budget k' f.work)

  -- Nothing is a panic, of a configuration that is no part of a URL.
  unfoldable pub process_mode : Option Mode → Count → ℕ → Option (Count × ℕ × ProcessResult)
  unfolding count_with signal_text strip_question mode_named get
  process_mode mode k budget = elim mode [
    | some mode ↦ some (count_with mode k budget)
    | none ↦ elim (pop k.conf).1 [
      | none ↦ some (record k { conf = (pop k.conf).0 }, budget, no_work)
      | some m ↦
          elim (libs.query_pairs
            (bytes "https://makeurlhappy/?" ++ strip_question (signal_text m))) [
              | none ↦ none
              | some pairs ↦ elim (get (bytes "mode") pairs) [
                | none ↦ some (record k { conf = (pop k.conf).0 }, budget, finished)
                | some name ↦ elim (mode_named name) [
                  | none ↦ some (record k { conf = (pop k.conf).0 }, budget, finished)
                  | some mode ↦ some (
                      count_with mode (record k { conf = (pop k.conf).0; mode = some mode }) budget)
                ]
              ]
            ]
    ]
  ]

  unfoldable pub process : Count → ℕ → Option (Count × ℕ × ProcessResult)
  unfolding process_mode
  process k budget = process_mode k.mode k budget
