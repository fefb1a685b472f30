-- ===== src/Server/Messages/Carried.antt =====
-- src/server.rs: what a handler of a graph message does for an operation on the graph, and how the
-- checks before it go.
use flowd.Base.{
  ℕ, ◌≡◌, refl, Bool, true, false, Option, none, some, List, [], ◌∷◌, ◌++◌, map, Str, Result, ok,
  err, Fallible, arith, fun_ext,
}
use flowd.Graph.{Graph}
use flowd.Graph.Nodes.{RemovedEdge}
use flowd.Graph.Requests.{forget}
use flowd.Runtime.Secrets.{read_write}
use flowd.Server.{Server, Handled, put_graph, allows, get_graph_by_name, on_graph, finish}
use flowd.Server.Payloads.{Answer, Failure, invalid_secret, graph_error, removed_edge}
use flowd.Server.Messages.{has_error}

-- The answer of an operation is an error.
unfoldable pub failed? : {A : Type 0} → Result A → Bool
failed? (ok a) = false
failed? (err e) = true

-- The server after an operation on the graph with a handle, which left `r`: the graph is what the
-- operation left, all else is as it was, and an error is answered exactly if the operation failed.
pub record Carries {M : Type 0} (h : ℕ) (s : Server M) (r : Fallible (Graph M) (Unit {0}))
    (out : Handled M) : Type 0 where
  pub server : out.0 ≡ record s { store = put_graph h r.0 s.store }
  pub told : has_error out.1 ≡ failed? r.1

-- A handler that answers with an error has changed nothing.
abbrev pub Calm : {M : Type 0} → Server M → Handled M → Type 0
Calm s out = has_error out.1 ≡ true → out.0 ≡ s

module _ {M : Type 0} where
  pub put_graph_same : (h : ℕ) (store : ℕ → Graph M) → put_graph h (store h) store ≡ store
  put_graph_same h store = fun_ext (λ i. same i)
    where
      same : (i : ℕ) → put_graph h (store h) store i ≡ store i
      same i = ground arith

  pub no_error_in :
      (es : List RemovedEdge) (rest : List (Answer M))
      → has_error rest ≡ false
      → has_error (map (λ (e : RemovedEdge). removed_edge e.graph e.src e.tgt) es ++ rest) ≡ false
  unfolding has_error
  no_error_in [] rest h = h
  no_error_in (e ∷ es) rest h = no_error_in es rest h

  pub finish-Carries :
      {A : Type 0} (h : ℕ) (s : Server M) (r : Fallible (Graph M) A) (answer : A → List (Answer M))
      → ((a : A) → has_error (answer a) ≡ false)
      → Carries h s (forget r) (finish h r answer s)
  unfolding finish failed? has_error
  finish-Carries h s (g, ok a) answer calm = record { server = refl; told = calm a }
  finish-Carries h s (g, err e) answer calm = record { server = refl; told = refl }

  pub finish_plain-Carries :
      (h : ℕ) (s : Server M) (r : Fallible (Graph M) (Unit {0})) (answer : List (Answer M))
      → has_error answer ≡ false
      → Carries h s r (finish h r (λ u. answer) s)
  unfolding finish failed? has_error
  finish_plain-Carries h s (g, ok u) answer calm = record { server = refl; told = calm }
  finish_plain-Carries h s (g, err e) answer calm = record { server = refl; told = refl }

  pub on_graph_reaches :
      (secret : Option Str) (name : Str) (missing : Failure) (f : ℕ → Handled M) (s : Server M)
      (h : ℕ)
      → allows read_write secret name s.secrets ≡ true
      → get_graph_by_name name s ≡ some h
      → on_graph secret name missing f s ≡ f h
  unfolding on_graph
  on_graph_reaches secret name missing f s h may found = rw may (rw found refl)

  pub on_graph_misses :
      (secret : Option Str) (name : Str) (missing : Failure) (f : ℕ → Handled M) (s : Server M)
      → allows read_write secret name s.secrets ≡ true
      → get_graph_by_name name s ≡ none
      → on_graph secret name missing f s ≡ (s, graph_error missing ∷ [])
  unfolding on_graph
  on_graph_misses secret name missing f s may lost = rw may (rw lost refl)

  pub on_graph_shuts :
      (secret : Option Str) (name : Str) (missing : Failure) (f : ℕ → Handled M) (s : Server M)
      → allows read_write secret name s.secrets ≡ false
      → on_graph secret name missing f s ≡ (s, graph_error invalid_secret ∷ [])
  unfolding on_graph
  on_graph_shuts secret name missing f s no_right = rw no_right refl
