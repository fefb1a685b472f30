-- ===== src/Tests/Counting.antt =====
-- components/count/src/count.rs and components/drop/src/drop.rs: the theorems at components with
-- packets that wait, a report that could not be sent, and less budget than packets.
use flowd.Base.{
  arith, str_eq, ℕ, ◌-◌, ◌≡◌, refl, false, none, some, [], ◌∷◌, min, length, drop, bytes, ltb,
  if◌then◌else◌,
}
use flowd.Api.Context.{ProcessResult, did_work, no_work, finished}
use flowd.Api.Message.{FbpMessage, raw, text}
use flowd.Api.Rings.{Rtrb, list_rtrb}
use flowd.Api.Signals.{signal_text}
use flowd.Components.Repeat.{check_text_signal}
use flowd.Components.Count.{total, Libraries, size, Count, process}
use flowd.Components.Count.Totals.{IsTotalled, process-IsTotalled}
use flowd.Components.Drop.{Drop}
use flowd.Components.Drop.Drains.{process-Drained}
use flowd.Components.Drop

abbrev rings : Rtrb (FbpMessage ℕ)
rings = list_rtrb (FbpMessage ℕ)

abbrev libs : Libraries
libs = record { query_pairs = λ s. none; atoi = λ s. none }

abbrev counter : Count libs rings
counter = record {
  conf = record { waiting = []; abandoned = false };
  inn = record { waiting = text (bytes "abc") ∷ raw (1 ∷ 2 ∷ []) ∷ []; abandoned = false };
  out = record { out = []; free = 1 };
  signals = record { incoming = text (bytes "ping") ∷ []; outgoing = [] };
  outputs = [];
  mode = some size;
  packets = 0;
  packetsize = 4;
  sum = 0;
  pending_reports = text (bytes "4") ∷ [];
}

process-IsTotalled_example :
    (out : Count libs rings × ℕ × ProcessResult) × (process libs rings counter 8 ≡ some out)
    × IsTotalled libs rings size counter out.0 out.1
unfolding str_eq signal_text total
process-IsTotalled_example =
    process-IsTotalled libs rings counter size 8 refl (refl, tt) (omega arith) (omega arith)

abbrev dropper : Drop rings
dropper = record {
  inn = record {
    waiting = text (bytes "a") ∷ text (bytes "b") ∷ text (bytes "c") ∷ [];
    abandoned = false;
  };
  signals = record { incoming = text (bytes "ping") ∷ []; outgoing = [] };
}

process-Drained_example :
    let out = Drop.process rings dropper 2 in
    let dropped = min (length (rings.queued dropper.inn)) 2 in
    (rings.queued out.0.inn ≡ drop 2 (rings.queued dropper.inn))
    × (out.1 ≡ 2 - length (rings.queued dropper.inn))
    × (out.2 ≡ (
        if ltb 0 dropped
        then did_work dropped
        else if rings.is_abandoned out.0.inn
        then finished
        else no_work))
unfolding check_text_signal str_eq
process-Drained_example = process-Drained rings dropper 2 refl refl
