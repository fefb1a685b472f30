-- ===== src/Tests/Splitting.antt =====
-- components/splitlines/src/splitlines.rs: the theorems at a text of three lines, and a call that
-- finds one free slot.
use flowd.Base.{arith, refl, str_eq, ℕ, ◌≡◌, false, none, [], ◌∷◌, map, All, bytes, newline}
use flowd.Api.Message.{FbpMessage, text}
use flowd.Api.Signals.{signal_text}
use flowd.Api.Rings.{Rtrb, list_rtrb}
use flowd.Components.SplitLines.{SplitLines, process, split_lines}
use flowd.Components.SplitLines.Delivery.{IsSplit, process-IsSplit}
use flowd.Components.SplitLines.Lines.{join, content, Lacks, split_lines_lem}

abbrev packet : FbpMessage ℕ
packet = text (98 ∷ 10 ∷ 10 ∷ 99 ∷ [])

split_lines_lem_example :
    (join newline (map content (split_lines packet)) ≡ content packet)
    × All (λ l. Lacks newline (content l)) (split_lines packet)
split_lines_lem_example = split_lines_lem packet

abbrev rings : Rtrb (FbpMessage ℕ)
rings = list_rtrb (FbpMessage ℕ)

abbrev splitter : SplitLines rings
splitter = record {
  inn = record { waiting = packet ∷ text (bytes "d") ∷ []; abandoned = false };
  out = record { out = text (bytes "a") ∷ []; free = 1 };
  signals = record { incoming = text (bytes "ping") ∷ []; outgoing = [] };
  line_iter = none;
}

process-IsSplit_example : let out = process rings splitter 8 in IsSplit rings splitter out.0 8 out.1
unfolding str_eq signal_text
process-IsSplit_example = process-IsSplit rings splitter 8 (omega arith) (refl, tt)
