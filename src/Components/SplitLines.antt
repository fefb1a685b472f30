-- ===== src/Components/SplitLines.antt =====
-- components/splitlines/src/splitlines.rs: `SplitLinesComponent`. A text is its UTF-8 bytes, and no
-- byte of a longer character is a newline, so that texts and bytes are split alike.
pub mod Lines
pub mod Delivery
use flowd.Base.{
  ℕ, zero, suc, ◌+◌, Bool, true, false, Option, none, some, List, [], ◌∷◌, map, Str, if◌then◌else◌,
  ◌==◌, ltb, newline,
}
use flowd.Api.Context.{ProcessResult, finished}
use flowd.Api.Message.{FbpMessage, raw, text, as_text, as_bytes, from_utf8}
use flowd.Api.Rings.{Rtrb}
use flowd.Api.Signals.{Signals, check_signal}
use flowd.Components.Muxer.{report}

-- One more byte in front of the first part.
unfoldable pub on_first : ℕ → List Str → List Str
on_first c [] = (c ∷ []) ∷ []
on_first c (p ∷ ps) = (c ∷ p) ∷ ps

-- `str::split` and `slice::split` by one separator: there is always a part.
unfoldable pub split : ℕ → Str → List Str
unfolding on_first
split sep [] = [] ∷ []
split sep (c ∷ s) = let rest = split sep s in if c == sep then [] ∷ rest else on_first c rest

module _ {V : Type 0} where
  -- Bytes that are UTF-8 become a text.
  unfoldable pub bytes_line : List ℕ → FbpMessage V
  unfolding from_utf8
  bytes_line x = elim (from_utf8 x) [ some s ↦ text s | none ↦ raw x ]

  bytes_lines : Option (List ℕ) → List (FbpMessage V)
  bytes_lines (some b) = map bytes_line (split newline b)
  bytes_lines none = []

  -- The lines of a packet; of one that is neither text nor bytes there are none.
  unfoldable pub split_lines : FbpMessage V → List (FbpMessage V)
  unfolding split bytes_line bytes_lines as_text as_bytes
  split_lines ip = elim (as_text ip) [
    | some s ↦ map text (split newline s)
    | none ↦ bytes_lines (as_bytes ip)
  ]

module _ {V : Type 0} (rings : Rtrb (FbpMessage V)) where
  open rings use {Producer, Consumer, push, pop, is_abandoned}

  pub record SplitLines : Type 0 where
    pub inn : Consumer
    pub out : Producer
    pub signals : Signals V
    pub line_iter : Option (List (FbpMessage V))

  -- A packet is read only when no lines are left from an earlier one.
  unfoldable pub refill :
      Option (List (FbpMessage V)) → Consumer → Consumer × Option (List (FbpMessage V))
  unfolding split_lines
  refill (some lines) c = (c, some lines)
  refill none c = ((pop c).0, elim (pop c).1 [ some ip ↦ some (split_lines ip) | none ↦ none ])

  -- The variables of the loop that sends.
  pub record Sending : Type 0 where
    pub line_iter : Option (List (FbpMessage V))
    pub out : Producer
    pub budget : ℕ
    pub lines_sent : ℕ

  -- The line that is refused has left the iterator.
  unfoldable pub send_lines : ℕ → List (FbpMessage V) → Producer → ℕ → Sending
  send_lines zero ls p n = record { line_iter = some ls; out = p; budget = 0; lines_sent = n }
  send_lines (suc b) [] p n = record { line_iter = none; out = p; budget = suc b; lines_sent = n }
  send_lines (suc b) (l ∷ ls) p n = elim (push l p).1 [
    | true ↦ send_lines b ls (push l p).0 (n + 1)
    | false ↦ record { line_iter = some ls; out = (push l p).0; budget = suc b; lines_sent = n }
  ]

  unfoldable pub send_iter : ℕ → Option (List (FbpMessage V)) → Producer → Sending
  unfolding send_lines
  send_iter b none p = record { line_iter = none; out = p; budget = b; lines_sent = 0 }
  send_iter b (some ls) p = send_lines b ls p 0

  -- The end of a call, after the lines were sent.
  unfoldable pub conclude : Bool → SplitLines → ℕ → ℕ → SplitLines × ℕ × ProcessResult
  unfolding report
  conclude over s budget lines_sent =
      if over
      then (s, budget, finished)
      else (s, budget, report (if ltb 0 lines_sent then 1 else 0))

  unfoldable pub process : SplitLines → ℕ → SplitLines × ℕ × ProcessResult
  unfolding check_signal refill send_iter conclude report
  process s zero =
      let (signals, stop) = check_signal s.signals in
      let s' : SplitLines = record s { signals = signals } in
      if stop then (s', 0, finished) else conclude (is_abandoned s.inn) s' 0 0
  process s (suc b) =
      let (first, stop) = check_signal s.signals in
      let (second, stop_again) = check_signal first in
      let (c, iter) = refill s.line_iter s.inn in
      let sending : Sending = send_iter (suc b) iter s.out in
      let s' : SplitLines = record {
        inn = c;
        out = sending.out;
        signals = second;
        line_iter = sending.line_iter;
      } in
      if stop
      then (record s { signals = first }, suc b, finished)
      else if stop_again
      then (record s { signals = second }, suc b, finished)
      else conclude (is_abandoned c) s' sending.budget sending.lines_sent
