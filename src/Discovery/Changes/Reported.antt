-- ===== src/Discovery/Changes/Reported.antt =====
-- internal/discovery/scanner.go: which services detectEndpointChanges must report.
use corta_sentry.Prelude.{
  ℕ, ◌≡◌, refl, subst, false, List, [], ◌∷◌, Memᴰ, inl, inr, Bool-cases, any-false, mem-append_left,
  mem-append_right,
}
use corta_sentry.Records.Observations.{Observation, tcp_connect}
use corta_sentry.Records.Sources.{source_eq_iff}
use corta_sentry.Records.Changes.{ChangeEvent}
use corta_sentry.Discovery.Changes.Endpoint.{IsNewService, WasOpen-of_seen}
use corta_sentry.Discovery.Changes.{
  Encoders, seen_open, service_event, service_change, change_of_source, endpoint_changes,
}

module _ (enc : Encoders) (asset now : ℕ) (batch recent : List Observation) where
  no_seen :
      (o r : Observation)
      → Memᴰ r recent
      → IsNewService enc asset now batch recent o
      → seen_open batch o r ≡ false
  no_seen o r m h = elim (Bool-cases (seen_open batch o r)) [
    | inr n ↦ n
    | inl y ↦ absurd (h.not_before r (WasOpen-of_seen enc asset now batch recent o r m y))
  ]

  part-mem :
      (os : List Observation) (o : Observation) (ev : ChangeEvent)
      → Memᴰ o os
      → Memᴰ ev (change_of_source enc asset now batch recent o.source o)
      → Memᴰ ev (endpoint_changes enc asset now batch recent os)
  unfolding endpoint_changes
  part-mem [] o ev m h = elim m [ ]
  part-mem (x ∷ os) o ev (Memᴰ.head e) h = mem-append_left _ _ ev (
      subst (λ (y : Observation). Memᴰ ev (change_of_source enc asset now batch recent y.source y))
        e h)
  part-mem (x ∷ os) o ev (Memᴰ.tail m) h = mem-append_right _ _ ev (part-mem os o ev m h)

  -- Every port of the batch that is open, and that no earlier row shows open, is reported.
  pub endpoint_changes_complete :
      (o : Observation)
      → IsNewService enc asset now batch recent o
      → Memᴰ
          (service_event enc asset now batch recent o)
          (endpoint_changes enc asset now batch recent batch)
  unfolding service_change
  endpoint_changes_complete o h =
      let t = (source_eq_iff o.source tcp_connect).1 h.source in
      let f = any-false (seen_open batch o) recent (λ r m. no_seen o r m h) in
      part-mem batch o (service_event enc asset now batch recent o) h.member
        (rw (t, h.is_open_now, f, service_change) (Memᴰ.head refl))
