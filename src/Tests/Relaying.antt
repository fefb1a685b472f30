-- ===== src/Tests/Relaying.antt =====
-- components/repeat/src/repeat.rs: the theorem at a component with a packet that waits, a ping and room
-- for two.
use flowd.Base.{refl, ◌⊎◌, str_eq, ℕ, ◌≡◌, false, [], ◌∷◌, ◌++◌, bytes}
use flowd.Api.Message.{FbpMessage, text, as_text}
use flowd.Api.Rings.{Rtrb, list_rtrb}
use flowd.Components.Repeat.{Repeat, plain_text, process}
use flowd.Components.Repeat.Lossless.{process_keeps}
use flowd.Components.Repeat.Progress.{process_ends}

abbrev rings : Rtrb (FbpMessage ℕ)
rings = list_rtrb (FbpMessage ℕ)

abbrev repeat : Repeat rings
repeat = record {
  inn = record { waiting = text (bytes "2") ∷ text (bytes "3") ∷ []; abandoned = false };
  out = record { out = []; free = 2 };
  signals = record { incoming = text (bytes "ping") ∷ []; outgoing = [] };
  pending_out = text (bytes "1") ∷ [];
}

process_keeps_example :
    let r' = (process rings repeat 32).0 in
    rings.sent r'.out ++ (r'.pending_out ++ rings.queued r'.inn)
    ≡ rings.sent repeat.out ++ (repeat.pending_out ++ rings.queued repeat.inn)
process_keeps_example = process_keeps rings repeat 32

process_ends_example :
    let out = process rings repeat 32 in
    (out.1 ≡ 0)
    ⊎ (((rings.queued out.0.inn ≡ []) × (out.0.pending_out ≡ [])) ⊎ (rings.room out.0.out ≡ 0))
unfolding plain_text as_text str_eq
process_ends_example = process_ends rings repeat 32 (refl, tt)
