-- ===== src/Discovery/Probe/Safety.antt =====
-- internal/discovery/scanner.go: what one probe connects to, and what it observes.
use mathlib.Core.List.{append_assoc}
use corta_sentry.Prelude.{
  ℕ, ◌+◌, ◌≤◌, ◌≡◌, refl, Bool, true, false, Option, none, some, List, [], ◌∷◌, ◌++◌, arith, inl,
  inr, Bool-cases, All, All-append, length, length-append, ap, ◌∙◌, sym, subst,
}
use corta_sentry.Scope.Address.{Addr, NetText}
use corta_sentry.Scope.Engine.{Engine, Decision}
use corta_sentry.Records.Observations.{Observation}
use corta_sentry.Discovery.Dialer.{Network, Probing, dial}
use corta_sentry.Discovery.Dialer.Safety.{IsAllowed, dial_cases}
use corta_sentry.Discovery.Collect.{
  Peers, Codecs, Budget, collect_tcp, collect_tls, collect_http, collect_banner, collect_over,
  tls_answer, http_answer, banner_answer,
}
use corta_sentry.Discovery.Probe.{
  is_open, is_tls_port, is_http_port, is_banner_port, appended, probe, probe_service,
}

abbrev pub Attempts : Type 0
Attempts = List (Addr × ℕ × Decision)

module _ (net : NetText) {S : Type 0} (e : Engine S) where
  -- A state follows another by attempts that are all of a kind.
  abbrev pub Follows : (Addr × ℕ × Decision → Type 0) → Probing S → Probing S → Type 0
  Follows P st st' = (new : Attempts) × (st'.dialed ≡ new ++ st.dialed) × All P new

  -- An attempt that the policy allows, to the address and port that are probed.
  pub record IsAimed (a : Addr) (p : ℕ) (at : Addr × ℕ × Decision) : Type 0 where
    pub address : at.0 ≡ a
    pub port : at.1 ≡ p
    pub allowed : IsAllowed net e at

  module _ (P : Addr × ℕ × Decision → Type 0) where
    pub Follows-refl : (st : Probing S) → Follows P st st
    Follows-refl st = ([], refl, tt)

    pub Follows-trans : (x y z : Probing S) → Follows P x y → Follows P y z → Follows P x z
    Follows-trans x y z (n, u, h) (m, v, k) = (
      m ++ n,
      v ∙ ap (λ (l : Attempts). m ++ l) u ∙ sym (append_assoc m n x.dialed),
      All-append P m n k h,
    )

module _ (c : Codecs) (net : NetText) {S : Type 0} (e : Engine S) (wire : Network) (peers : Peers)
    (budget : Budget) (job : ℕ) (a : Addr) (p : ℕ) where
  abbrev Aims : Probing S → Probing S → Type 0
  Aims = Follows net e (IsAimed net e a p)

  dial-Aims : (st : Probing S) → Aims st (dial net e wire a p st).2
  dial-Aims st = elim (dial_cases net e wire a p st) [
    | inl (q, n) ↦ ([], q, tt)
    | inr (q, k) ↦ (
      (a, p, (dial net e wire a p st).1) ∷ [],
      q,
      (record { address = refl; port = refl; allowed = k }, tt),
    )
  ]

  over_state :
      (answer : ℕ → Decision → ℕ → Option Observation) (st : Probing S)
      → (collect_over c net e wire peers budget job answer a p st).1 ≡ (dial net e wire a p st).2
  unfolding collect_over
  over_state answer st = ground arith

  tls-Aims : (st : Probing S) → Aims st (collect_tls c net e wire peers budget job a p st).1
  unfolding collect_tls
  tls-Aims st =
      subst (Aims st) (sym (over_state (tls_answer c net e wire peers budget job a p) st))
        (dial-Aims st)

  http-Aims :
      (secure : Bool) (st : Probing S)
      → Aims st (collect_http c net e wire peers budget job secure a p st).1
  unfolding collect_http
  http-Aims secure st =
      subst (Aims st) (sym (over_state (http_answer c net e wire peers budget job secure a p) st))
        (dial-Aims st)

  banner-Aims : (st : Probing S) → Aims st (collect_banner c net e wire peers budget job a p st).1
  unfolding collect_banner
  banner-Aims st =
      subst (Aims st) (sym (over_state (banner_answer c net e wire peers budget job a p) st))
        (dial-Aims st)

  service-Aims :
      (batch : List Observation) (st : Probing S)
      → Aims st (probe_service c net e wire peers budget job a p batch st).1
  unfolding probe_service
  service-Aims batch st = elim (Bool-cases (is_tls_port p)) [
    | inl y ↦
        let t = collect_tls c net e wire peers budget job a p st in
        let h = collect_http c net e wire peers budget job true a p t.1 in
        rw y (Follows-trans net e (IsAimed net e a p) st t.1 h.1 (tls-Aims st) (http-Aims true t.1))
    | inr n ↦ elim (Bool-cases (is_http_port p)) [
      | inl y ↦ rw (n, y) (http-Aims false st)
      | inr m ↦ elim (Bool-cases (is_banner_port p)) [
        | inl y ↦ rw (n, m, y) (banner-Aims st)
        | inr l ↦ rw (n, m, l) (Follows-refl net e _ st)
      ]
    ]
  ]

  -- Every connection that a probe attempts goes to the address and port that it probes, and the
  -- policy allows it.
  pub probe-Aims : (st : Probing S) → Aims st (probe c net e wire peers budget job a p st).1
  unfolding probe collect_tcp
  probe-Aims st =
      let o = collect_tcp c net e wire peers budget job a p st in
      elim (Bool-cases (is_open o.0)) [
        | inl y ↦ rw y (
            Follows-trans net e (IsAimed net e a p) st o.1
              (probe_service c net e wire peers budget job a p (o.0 ∷ []) o.1).1 (dial-Aims st)
              (service-Aims (o.0 ∷ []) o.1))
        | inr n ↦ rw n (dial-Aims st)
      ]

  appended_bound :
      (batch : List Observation) (o : Option Observation)
      → (length batch ≤ length (appended batch o)) × (length (appended batch o) ≤ length batch + 1)
  appended_bound batch none = omega arith
  appended_bound batch (some o) = omega (arith, length-append batch (o ∷ []))

  -- A probe makes one to three observations.
  pub probe_bound :
      (st : Probing S)
      → let batch = (probe c net e wire peers budget job a p st).0 in
        (1 ≤ length batch) × (length batch ≤ 3)
  unfolding probe probe_service
  probe_bound st =
      let o = collect_tcp c net e wire peers budget job a p st in
      let t = collect_tls c net e wire peers budget job a p o.1 in
      let h = collect_http c net e wire peers budget job true a p t.1 in
      let g = collect_http c net e wire peers budget job false a p o.1 in
      let b = collect_banner c net e wire peers budget job a p o.1 in
      ground (
        arith,
        appended_bound (o.0 ∷ []) t.0,
        appended_bound (appended (o.0 ∷ []) t.0) h.0,
        appended_bound (o.0 ∷ []) g.0,
        appended_bound (o.0 ∷ []) b.0,
      )
