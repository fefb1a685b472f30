-- ===== src/Base/Results.antt =====
-- `Result<T, std::io::Error>`: an error is its kind; the texts of errors are left out.
use mathlib.Core.Path.{◌≡◌}

pub data ErrorKind : Type 0 where
  not_found already_exists resource_busy permission_denied timed_out invalid_input : ErrorKind

pub data Result {ℓ} (A : Type ℓ) : Type ℓ where
  ok : A → Result A
  err : ErrorKind → Result A

-- A method on `&mut self` that may fail: what it leaves, and what it returns.
abbrev pub Fallible : Type 0 → Type 0 → Type 0
Fallible S A = S × Result A

-- A failure has changed nothing.
abbrev pub KeepsOnError : {S A : Type 0} → S → Fallible S A → Type 0
KeepsOnError s (s', ok a) = Unit
KeepsOnError s (s', err e) = s' ≡ s
