-- ===== src/Discovery/Changes.antt =====
-- internal/discovery/scanner.go: which changes a batch of observations shows against what was
-- recorded before: detectEndpointChanges and detectHTTPChange. The JSON of a change is encoded by a
-- parameter.
pub mod Endpoint
pub mod Reported
use corta_sentry.Prelude.{
  ℕ, ◌+◌, Bool, true, false, ◌&&◌, ◌||◌, not, Option, none, some, List, [], ◌∷◌, ◌++◌, map, list_eq,
  if◌then◌else◌, ◌==◌, any, Text, first, elem,
}
use corta_sentry.Prelude.Bytes.{is_nil}
use corta_sentry.Scope.Address.{Addr}
use corta_sentry.Records.Observations.{
  Observation, Evidence, Source, source_eq, neighbor, tcp_connect, banner, http, tls, mdns, ssdp,
  host_connection, manual, imported_nmap, imported_zeek, imported_suricata, imported_nuclei,
}
use corta_sentry.Records.Changes.{
  ChangeType, ChangeEvent, new_service, certificate_changed, http_title_changed,
}
use corta_sentry.Discovery.Store.{Classification}
use corta_sentry.Discovery.Probe.{is_open}

-- json.Marshal of the values that a change carries.
pub record Encoders : Type 0 where
  pub null_json : Text
  pub address_json : Addr → Text
  pub service_json : ℕ → Text → Text
  pub string_json : Text → Text
  pub title_json : Option Text → Text
  pub class_json : Classification → Text

-- certificateFingerprint: that of the first certificate, or the empty text.
unfoldable pub certificate_fingerprint : Observation → Text
certificate_fingerprint o = elim o.evidence.certificates [ [] ↦ [] | d ∷ ds ↦ d ]

-- An event as the scanner makes it.
abbrev pub change_of : ChangeType → ℕ → ℕ → Text → Text → List ℕ → ChangeEvent
change_of type asset now previous current ids = record {
  id = 0;
  asset_id = asset;
  type = type;
  previous = previous;
  current = current;
  observation_ids = ids;
  detected_at = now;
  first_occurrence = now;
  last_occurrence = now;
  acknowledged = false;
}

-- batchIDs[o.ID]
abbrev pub in_batch : List Observation → ℕ → Bool
in_batch batch i = elem ◌==◌ i (map (λ (o : Observation). o.id) batch)

-- The rows that the search for an open service stops at.
abbrev pub seen_open : List Observation → Observation → Observation → Bool
seen_open batch current previous =
    not (in_batch batch previous.id)
    && (source_eq previous.source tcp_connect
        && (previous.port == current.port && is_open previous))

-- The rows that the search for a certificate stops at.
abbrev pub seen_tls : List Observation → Observation → Observation → Bool
seen_tls batch current previous =
    not (in_batch batch previous.id)
    && (source_eq previous.source tls && previous.port == current.port)

module _ (enc : Encoders) (asset now : ℕ) (batch recent : List Observation) where
  abbrev pub service_event : Observation → ChangeEvent
  service_event o =
      change_of new_service asset now enc.null_json (enc.service_json o.port o.transport)
        (o.id ∷ [])

  abbrev pub certificate_event : Observation → Observation → ChangeEvent
  certificate_event previous o =
      change_of certificate_changed asset now (enc.string_json (certificate_fingerprint previous))
        (enc.string_json (certificate_fingerprint o)) (previous.id ∷ o.id ∷ [])

  -- The case of SourceTCPConnect.
  unfoldable pub service_change : Observation → List ChangeEvent
  service_change o =
      if not (is_open o)
      then []
      else if any (seen_open batch o) recent
      then []
      else service_event o ∷ []

  -- The case of SourceTLS: the newest earlier row of the port decides.
  unfoldable pub certificate_change : Observation → List ChangeEvent
  unfolding certificate_fingerprint
  certificate_change o =
      if is_nil (certificate_fingerprint o) then [] else elim (first (seen_tls batch o) recent) [
        | none ↦ []
        | some previous ↦
            if is_nil (certificate_fingerprint previous)
              || list_eq (certificate_fingerprint previous) (certificate_fingerprint o)
            then []
            else certificate_event previous o ∷ []
      ]

  abbrev pub change_of_source : Source → Observation → List ChangeEvent
  change_of_source s o =
      if source_eq s tcp_connect
      then service_change o
      else if source_eq s tls
      then certificate_change o
      else []

  -- detectEndpointChanges: the changes in the order in which they are added.
  unfoldable pub endpoint_changes : List Observation → List ChangeEvent
  unfolding service_change certificate_change
  endpoint_changes [] = []
  endpoint_changes (o ∷ os) = change_of_source o.source o ++ endpoint_changes os

-- current["title"] != previous["title"], where a missing title is nil.
abbrev pub title_eq : Option Text → Option Text → Bool
title_eq none none = true
title_eq none (some t) = false
title_eq (some s) none = false
title_eq (some s) (some t) = list_eq s t

-- detectHTTPChange, on the newest HTTP observations of the asset.
unfoldable pub http_change : Encoders → ℕ → ℕ → List Observation → List ChangeEvent
http_change enc asset now [] = []
http_change enc asset now (o ∷ []) = []
http_change enc asset now (current ∷ previous ∷ os) =
    if title_eq current.evidence.title previous.evidence.title
    then []
    else change_of http_title_changed asset now (enc.title_json previous.evidence.title)
        (enc.title_json current.evidence.title) (current.id ∷ previous.id ∷ [])
      ∷ []
