-- ===== src/Runtime/Start.antt =====
-- src/runtime.rs: `Runtime::start`, the part that looks at the graph: it checks the edges, joins the
-- processes by channels and checks the ports of the components.
pub mod Checks
pub mod Channels
pub mod Wiring
pub mod Processes
pub mod Attempts
pub mod Joins
pub mod Steps
pub mod Panics
pub mod Occurrences
pub mod Conserved
use flowd.Base.{ErrorKind, Bool, List, Str}

-- What a piece of code does that may return an error or panic.
pub data Attempt {ℓ} (A : Type ℓ) : Type ℓ where
  returns : A → Attempt A
  fails : ErrorKind → Attempt A
  panics : Attempt A

infixl 5 ◌>>=◌ ◌>>◌
abbrev pub ◌>>=◌ {ℓ κ} : {A : Type ℓ} {B : Type κ} → Attempt A → (A → Attempt B) → Attempt B
returns a >>= f = f a
fails e >>= f = fails e
panics >>= f = panics

abbrev pub ◌>>◌ {ℓ} : {B : Type ℓ} → Attempt (Unit {0}) → Attempt B → Attempt B
m >> k = m >>= λ _. k

-- `ComponentPort` and `ComponentComponentPayload` of the component library, the fields that are read.
pub record ComponentPort : Type 0 where
  pub name : Str
  pub is_arrayport : Bool

pub record ComponentPayload : Type 0 where
  pub name : Str
  pub in_ports : List ComponentPort
  pub out_ports : List ComponentPort
