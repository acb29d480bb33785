-- ===== src/Discovery/Result.antt =====
-- internal/discovery/scanner.go: the result of a scan, and what ingestBatch derives from a batch. The
-- rules, hashes and encodings are parameters.
use corta_sentry.Prelude.{
  ℕ, ◌+◌, Bool, false, ◌&&◌, not, Option, none, some, List, [], ◌∷◌, ◌++◌, map, list_eq,
  if◌then◌else◌, ◌==◌, Text, elem, sort_by,
}
use corta_sentry.Prelude.Bytes.{is_nil}
use corta_sentry.Jobs.Stamp.{text_less}
use corta_sentry.Assets.Inventory.{service_set, agent_enrollment_id, strong, contextual}
use corta_sentry.Fingerprint.Match.{or_nil}
use corta_sentry.Fingerprint.Model.{Candidate}
use corta_sentry.Records.Observations.{
  Observation, ObservationQuery, Source, source_code, source_eq, http, tcp_connect, banner,
}
use corta_sentry.Discovery.Store.{Classification, Supplied, Resolved}
use corta_sentry.Discovery.Changes.{Encoders}

-- ScanResult.
pub record ScanResult : Type 0 where
  pub observations : ℕ
  pub assets : ℕ
  pub candidates : ℕ
  pub changes : ℕ
  pub errors : ℕ
  pub asset_ids : List ℕ

abbrev pub no_result : ScanResult
no_result = record {
  observations = 0;
  assets = 0;
  candidates = 0;
  changes = 0;
  errors = 0;
  asset_ids = [];
}

-- What the batch needs of other packages: fmt.Sprintf and sha256 for the service set, the engine of
-- fingerprint rules with its margin of ambiguity, and the columns of a rule.
pub record Deriver : Type 0 where
  pub encoders : Encoders
  pub part_text : Source → Text → ℕ → Text
  pub sha256_hex : Text → Text
  pub port_text : ℕ → Text
  pub evaluate : ℕ → List corta_sentry.Fingerprint.Model.Evidence → List Candidate
  pub ambiguity_delta : ℕ
  pub columns_of : ℕ → Classification

-- strings.Join(parts, "|")
unfoldable pub join_parts : List Text → Text
join_parts [] = []
join_parts (p ∷ []) = p
join_parts (p ∷ q ∷ ps) = p ++ b'|' ∷ join_parts (q ∷ ps)

abbrev pub failed : ScanResult → ScanResult
failed r = record r { errors = r.errors + 1 }

-- The counts of a batch that was attached to an asset.
unfoldable pub counted : Resolved → ℕ → ScanResult → ScanResult
counted x n r = record r {
  observations = r.observations + n;
  assets = if x.created then r.assets + 1 else r.assets;
  asset_ids =
      if elem ◌==◌ x.asset_id r.asset_ids then r.asset_ids else r.asset_ids ++ x.asset_id ∷ [];
}

-- What the scanner asks ListObservations for.
abbrev pub recent_of : ℕ → ObservationQuery
recent_of asset = record {
  asset = some asset;
  source = none;
  address = none;
  limit = 200;
  offset = 0;
}

abbrev pub http_of : ℕ → ObservationQuery
http_of asset = record {
  asset = some asset;
  source = some http;
  address = none;
  limit = 3;
  offset = 0;
}

abbrev pub or_empty : Option (List Observation) → List Observation
or_empty none = []
or_empty (some os) = os

abbrev pub class_eq : Classification → Classification → Bool
class_eq a b =
    list_eq a.device_class b.device_class
    && (list_eq a.vendor b.vendor
        && (list_eq a.product_family b.product_family
            && (list_eq a.model b.model && (if a.ambiguous then b.ambiguous else not b.ambiguous))))

-- What GetAsset answers, which is empty where it fails.
abbrev pub or_no_class : Option Classification → Classification
or_no_class none = record {
  device_class = [];
  vendor = [];
  product_family = [];
  model = [];
  ambiguous = false;
}
or_no_class (some p) = p

-- A state after an operation whose error is dropped.
abbrev pub or_same : {A : Type 0} → A → Option A → A
or_same t none = t
or_same t (some u) = u

module _ (d : Deriver) where
  -- serviceSetFingerprint.
  unfoldable pub service_set_fingerprint : List Observation → Text
  unfolding join_parts
  service_set_fingerprint [] = []
  service_set_fingerprint (o ∷ os) = d.sha256_hex (
      join_parts (
        sort_by text_less
          (map (λ (x : Observation). d.part_text x.source x.application x.port) (o ∷ os))))

  -- The identifiers that a batch gives the resolver.
  unfoldable pub supplied : List Observation → Text → List Supplied
  unfolding service_set_fingerprint
  supplied batch strong_id =
      let set = service_set_fingerprint batch in
      (if is_nil set
        then []
        else record { kind = service_set; value = set; strength = contextual } ∷ [])
      ++ (if is_nil strong_id
          then []
          else record { kind = agent_enrollment_id; value = strong_id; strength = strong } ∷ [])

  -- A field that is set, to fmt.Sprint of its value.
  abbrev field : ℕ → Option Text → List (ℕ × Text)
  field k v = (k, or_nil v) ∷ []

  -- fieldsFrom, with the names of the fields numbered.
  unfoldable pub fields_from : Observation → List (ℕ × Text)
  fields_from o =
      if source_eq o.source http
      then field 1 o.evidence.status ++ (field 2 o.evidence.title ++ field 3 o.evidence.server)
      else if source_eq o.source banner
      then field 4 o.evidence.banner_text
      else if source_eq o.source tcp_connect
      then (5, d.port_text o.port) ∷ []
      else []

  abbrev pub evidence_of : Observation → corta_sentry.Fingerprint.Model.Evidence
  evidence_of o = record {
    observation_id = o.id;
    source = source_code o.source;
    observed_at = o.observed_at;
    fields = fields_from o;
  }
