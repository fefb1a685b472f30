-- ===== src/Server/Control/Stopped.antt =====
-- src/server.rs: `network:stop`, sent again.
use flowd.Base.{
  ◌≡◌, refl, true, Option, some, Str, str_eq, str_eq_refl, inl, inr, Bool-cases, Option-cases, ◌⊎◌,
  ap, ◌∙◌, ℕ,
}
use flowd.Runtime.Secrets.{read_write}
use flowd.Server.{Server, allows, get_graph_by_name}
use flowd.Server.Control.{on_network, stop_network, handle_network_stop}

module _ {M : Type 0} where
  stop_network-stop_network :
      (graph : Str) (s : Server M)
      → (stop_network graph (stop_network graph s).0).0 ≡ (stop_network graph s).0
  unfolding stop_network
  stop_network-stop_network graph s = elim (Bool-cases (str_eq s.runtime.status.graph graph)) [
    | inl hit ↦ rw (hit, str_eq_refl graph) refl
    | inr miss ↦ rw (miss, miss) refl
  ]

  -- The lookups of the handler do not depend on what stopping a network changes.
  lookups-stop_network :
      (secret : Option Str) (graph : Str) (s : Server M)
      → let t = (stop_network graph s).0 in
        (allows read_write secret graph t.secrets ≡ allows read_write secret graph s.secrets)
        × (get_graph_by_name graph t ≡ get_graph_by_name graph s)
  unfolding stop_network get_graph_by_name
  lookups-stop_network secret graph s = elim (Bool-cases (str_eq s.runtime.status.graph graph)) [
    | inl hit ↦ rw hit (refl, refl)
    | inr miss ↦ rw miss (refl, refl)
  ]

  -- A stop that is allowed, for a graph that there is, stops; any other leaves all as it was.
  handle_network_stop_cases :
      (secret : Option Str) (graph : Str) (s : Server M)
      → ((allows read_write secret graph s.secrets ≡ true)
          × ((h : ℕ) × (get_graph_by_name graph s ≡ some h)))
        ⊎ ((handle_network_stop secret graph s).0 ≡ s)
  unfolding handle_network_stop on_network
  handle_network_stop_cases secret graph s =
      elim (Bool-cases (allows read_write secret graph s.secrets)) [
        | inl may ↦ elim (Option-cases (get_graph_by_name graph s)) [
          | inl lost ↦ inr (rw (may, lost) refl)
          | inr found ↦ inl (may, found)
        ]
        | inr may_not ↦ inr (rw may_not refl)
      ]

  pub handle_network_stop_passes :
      (secret : Option Str) (graph : Str) (s : Server M) (h : ℕ)
      → allows read_write secret graph s.secrets ≡ true
      → get_graph_by_name graph s ≡ some h
      → handle_network_stop secret graph s ≡ stop_network graph s
  unfolding handle_network_stop on_network
  handle_network_stop_passes secret graph s h may found = rw (may, found) refl

  -- However the network stands, stopping it twice is stopping it once: the second time, no status
  -- changes and no thread that tears it down is started.
  handle_network_stop-handle_network_stop :
      (secret : Option Str) (graph : Str) (s : Server M)
      → let once = (handle_network_stop secret graph s).0 in
        (handle_network_stop secret graph once).0 ≡ once
  handle_network_stop-handle_network_stop secret graph s =
      elim (handle_network_stop_cases secret graph s) [
        | inr same ↦ rw (same, same) refl
        | inl (may, (h, found)) ↦
            let (same, there) = lookups-stop_network secret graph s in
            rw (handle_network_stop_passes secret graph s h may found) (
              ap (λ o. o.0)
                (handle_network_stop_passes secret graph (stop_network graph s).0 h (same ∙ may)
                  (there ∙ found))
              ∙ stop_network-stop_network graph s)
      ]
