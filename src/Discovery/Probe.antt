-- ===== src/Discovery/Probe.antt =====
-- internal/discovery/scanner.go: the probe of one address and port, and the grid of probes.
pub mod Safety
use corta_sentry.Prelude.{
  ℕ, ◌+◌, Bool, true, false, ◌||◌, Option, none, some, List, [], ◌∷◌, ◌++◌, map, list_eq,
  if◌then◌else◌, ◌==◌,
}
use corta_sentry.Scope.Address.{Addr, NetText}
use corta_sentry.Scope.Engine.{Engine}
use corta_sentry.Records.Observations.{Observation}
use corta_sentry.Discovery.Dialer.{Network, Probing}
use corta_sentry.Discovery.Collect.{
  Peers, Codecs, Budget, collect_tcp, collect_tls, collect_http, collect_banner, open_state,
}

-- isTLSPort, isHTTPPort and isBannerPort.
unfoldable pub is_tls_port : ℕ → Bool
is_tls_port p = p == 443 || p == 8443 || p == 18443

unfoldable pub is_http_port : ℕ → Bool
is_http_port p =
    p == 80
    || p == 8000
    || p == 8001
    || p == 8002
    || p == 8080
    || p == 18001
    || p == 18002
    || p == 18003
    || p == 18004

unfoldable pub is_banner_port : ℕ → Bool
is_banner_port p = p == 22 || p == 23 || p == 12022

-- `for _, a := range targets { for _, p := range ports { ... } }`
unfoldable pub grid : List Addr → List ℕ → List (Addr × ℕ)
grid [] ports = []
grid (a ∷ targets) ports = map (λ (p : ℕ). (a, p)) ports ++ grid targets ports

-- observationState(o) == "open"
abbrev pub is_open : Observation → Bool
is_open o = list_eq o.evidence.state open_state

-- batch = append(batch, o), if there was no error.
abbrev pub appended : List Observation → Option Observation → List Observation
appended batch none = batch
appended batch (some o) = batch ++ o ∷ []

module _ (c : Codecs) (net : NetText) {S : Type 0} (e : Engine S) (wire : Network) (peers : Peers)
    (budget : Budget) (job : ℕ) where
  -- What follows an open port.
  unfoldable pub probe_service :
      Addr → ℕ → List Observation → Probing S → List Observation × Probing S
  probe_service a p batch st =
      if is_tls_port p
      then (let t = collect_tls c net e wire peers budget job a p st in
          let h = collect_http c net e wire peers budget job true a p t.1 in
          (appended (appended batch t.0) h.0, h.1))
      else if is_http_port p
      then (let h = collect_http c net e wire peers budget job false a p st in
          (appended batch h.0, h.1))
      else if is_banner_port p
      then (let b = collect_banner c net e wire peers budget job a p st in
          (appended batch b.0, b.1))
      else (batch, st)

  -- The observations of one probe.
  unfoldable pub probe : Addr → ℕ → Probing S → List Observation × Probing S
  unfolding probe_service
  probe a p st =
      let o = collect_tcp c net e wire peers budget job a p st in
      if is_open o.0 then probe_service a p (o.0 ∷ []) o.1 else (o.0 ∷ [], o.1)
