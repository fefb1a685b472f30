-- ===== src/Api/Signals.antt =====
-- The signal channels of a component: the check for `stop` and `ping` that every component makes, as
-- in components/muxer/src/muxer.rs.
use flowd.Base.{
  Bool, true, false, Option, none, some, List, [], ◌∷◌, ◌++◌, if◌then◌else◌, Str, bytes, str_eq,
  All, ◌≡◌, refl, Bool-cases, inl, inr,
}
use flowd.Api.Message.{FbpMessage, text, as_text, as_bytes, from_utf8}

-- What `try_recv` will yield, in order, and what was handed to `try_send`.
pub record Signals (V : Type 0) : Type 0 where
  pub incoming : List (FbpMessage V)
  pub outgoing : List (FbpMessage V)

or_empty : Option Str → Str
or_empty none = []
or_empty (some s) = s

abbrev bytes_as_text : Option Str → Option Str → Option Str
bytes_as_text (some s) other = some s
bytes_as_text none other = other

module _ {V : Type 0} where
  -- The text of a message, or its bytes if they are UTF-8, or nothing.
  unfoldable pub signal_text : FbpMessage V → Str
  unfolding or_empty as_text as_bytes from_utf8
  signal_text m =
      or_empty
        (bytes_as_text (as_text m) (elim (as_bytes m) [ none ↦ none | some b ↦ from_utf8 b ]))

  -- One signal, if there is one: whether it says to stop; a ping is answered.
  answer : FbpMessage V → Signals V → Signals V × Bool
  unfolding signal_text
  answer m s =
      if str_eq (signal_text m) (bytes "stop")
      then (s, true)
      else if str_eq (signal_text m) (bytes "ping")
      then (record s { outgoing = s.outgoing ++ text (bytes "pong") ∷ [] }, false)
      else (s, false)

  receive : List (FbpMessage V) → Signals V → Signals V × Bool
  receive [] s = (s, false)
  receive (m ∷ ms) s = answer m (record s { incoming = ms })

  unfoldable pub check_signal : Signals V → Signals V × Bool
  unfolding receive answer
  check_signal s = receive s.incoming s

  -- No signal that waits says to stop.
  abbrev pub Calm : Signals V → Type 0
  Calm s = All (λ m. str_eq (signal_text m) (bytes "stop") ≡ false) s.incoming

  pub check_signal-Calm :
      (s : Signals V) → Calm s → ((check_signal s).1 ≡ false) × Calm (check_signal s).0
  unfolding check_signal
  check_signal-Calm s c = by_first s.incoming c
    where
      by_answer :
          (m : FbpMessage V) (ms : List (FbpMessage V))
          → str_eq (signal_text m) (bytes "stop") ≡ false
          → All (λ m. str_eq (signal_text m) (bytes "stop") ≡ false) ms
          → ((receive (m ∷ ms) s).1 ≡ false) × Calm (receive (m ∷ ms) s).0
      by_answer m ms h hs = rw h (elim (Bool-cases (str_eq (signal_text m) (bytes "ping"))) [
        | inl e ↦ rw e (refl, hs)
        | inr e ↦ rw e (refl, hs)
      ])

      by_first :
          (ms : List (FbpMessage V))
          → All (λ m. str_eq (signal_text m) (bytes "stop") ≡ false) ms
          → ((receive ms s).1 ≡ false) × Calm (receive ms s).0
      by_first [] hs = (refl, c)
      by_first (m ∷ ms) (h, hs) = by_answer m ms h hs
