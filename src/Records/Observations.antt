-- ===== src/Records/Observations.antt =====
-- internal/storage/sqlite/store.go: AddObservation and ListObservations, on the records of
-- internal/domain/models.go. A text that is only compared is a number, with 0 for the empty text;
-- a time of 0 is Go's zero time. Rows of equal times keep the order of the table.
use corta_sentry.Prelude.{
  ℕ, Bool, true, false, ◌&&◌, ◌||◌, not, Option, none, some, List, [], ◌∷◌, ◌++◌, map, any, Text,
  Result, ok, err, ltb, ◌==◌, if◌then◌else◌, sort_by, take, drop, select_where,
}
use corta_sentry.Scope.Address.{Addr, invalid, v4, v6, unmap, addr_eq}
use corta_sentry.Jobs.Stamp.{stamp_less}
use corta_sentry.Assets.Inventory.{LinkRow}

-- ObservationSource.
pub data Source : Type 0 where
  neighbor tcp_connect banner http tls mdns ssdp host_connection manual : Source
  imported_nmap imported_zeek imported_suricata imported_nuclei : Source

unfoldable pub source_code : Source → ℕ
source_code neighbor = 1
source_code tcp_connect = 2
source_code banner = 3
source_code http = 4
source_code tls = 5
source_code mdns = 6
source_code ssdp = 7
source_code host_connection = 8
source_code imported_nmap = 9
source_code imported_zeek = 10
source_code imported_suricata = 11
source_code imported_nuclei = 12
source_code manual = 13

abbrev pub source_eq : Source → Source → Bool
source_eq a b = source_code a == source_code b

-- The JSON of Observation.Evidence: its length, and the values that the program reads from it.
pub record Evidence : Type 0 where
  pub size : ℕ
  pub state : Text
  pub certificates : List Text
  pub status : Option Text
  pub title : Option Text
  pub server : Option Text
  pub banner_text : Option Text

-- domain.Observation.
pub record Observation : Type 0 where
  pub id : ℕ
  pub sensor_id : Text
  pub job_id : ℕ
  pub asset_id : ℕ
  pub observed_at : ℕ
  pub ingested_at : ℕ
  pub source : Source
  pub target : Addr
  pub port : ℕ
  pub transport : Text
  pub application : Text
  pub evidence : Evidence
  pub raw_digest : ℕ
  pub collector_version : Text
  pub policy_decision_id : ℕ
  pub truncated : Bool
  pub provenance : Text

-- Addr.IsValid.
abbrev pub is_valid : Addr → Bool
is_valid invalid = false
is_valid (v4 n) = true
is_valid (v6 n z) = true

abbrev pub mebibyte : ℕ
mebibyte = 1048576

abbrev pub empty_object : Text
empty_object = b'{' ∷ b'}' ∷ []

pub data RecordError : Type 0 where
  target_required evidence_required duplicate_id : RecordError

abbrev or_default : ℕ → ℕ → ℕ
or_default value x = if x == 0 then value else x

-- What AddObservation fills in. `fresh` is what newID makes, `now` the clock.
unfoldable pub with_defaults : ℕ → ℕ → Observation → Observation
with_defaults fresh now o =
    let ingested = or_default now o.ingested_at in
    record o {
      id = or_default fresh o.id;
      ingested_at = ingested;
      observed_at = or_default ingested o.observed_at;
      target = unmap o.target;
      provenance = elim o.provenance [ [] ↦ empty_object | c ∷ s ↦ c ∷ s ];
    }

abbrev pub has_id : ℕ → Observation → Bool
has_id i o = o.id == i

-- AddObservation: the row stored, with the table after it.
unfoldable pub add_observation :
    ℕ → ℕ → Observation → List Observation → Result RecordError (Observation × List Observation)
unfolding with_defaults
add_observation fresh now o t =
    let row = with_defaults fresh now o in
    if not (is_valid o.target)
    then err target_required
    else if o.evidence.size == 0 || ltb mebibyte o.evidence.size
    then err evidence_required
    else if any (has_id row.id) t
    then err duplicate_id
    else ok (row, t ++ row ∷ [])

-- A row of the join: an observation, and an asset that it is attached to.
pub record Listed : Type 0 where
  pub observation : Observation
  pub attached : Option ℕ

abbrev of_observation : ℕ → LinkRow → Bool
of_observation i l = l.observation == i

abbrev attached_to : Observation → LinkRow → Listed
attached_to o l = record { observation = o; attached = some l.asset }

-- observations o LEFT JOIN asset_observations ao ON ao.observation_id=o.id
unfoldable pub joined : List LinkRow → List Observation → List Listed
joined links [] = []
joined links (o ∷ os) =
    let rest = joined links os in
    elim (select_where (of_observation o.id) links) [
      | [] ↦ record { observation = o; attached = none } ∷ rest
      | l ∷ ls ↦ map (attached_to o) (l ∷ ls) ++ rest
    ]

-- The filter of ListObservations; `none` stands for an empty parameter.
pub record ObservationQuery : Type 0 where
  pub asset : Option ℕ
  pub source : Option Source
  pub address : Option Addr
  pub limit : ℕ
  pub offset : ℕ

abbrev attached_eq : Option ℕ → ℕ → Bool
attached_eq none a = false
attached_eq (some b) a = b == a

abbrev pub is_selected : ObservationQuery → Listed → Bool
is_selected q r =
    elim q.asset [ none ↦ true | some a ↦ attached_eq r.attached a ]
    && (elim q.source [ none ↦ true | some s ↦ source_eq r.observation.source s ]
        && elim q.address [ none ↦ true | some a ↦ addr_eq r.observation.target a ])

-- ORDER BY observed_at DESC
abbrev pub is_newer : Listed → Listed → Bool
is_newer a b = stamp_less b.observation.observed_at a.observation.observed_at

abbrev pub page_limit : ℕ → ℕ → ℕ → ℕ
page_limit highest default n = if ltb n 1 || ltb highest n then default else n

-- COALESCE(ao.asset_id,o.asset_id)
abbrev pub with_asset : Listed → Observation
with_asset r = record r.observation {
  asset_id = elim r.attached [ none ↦ r.observation.asset_id | some a ↦ a ];
}

unfoldable pub list_observations :
    ObservationQuery → List LinkRow → List Observation → List Observation
unfolding joined
list_observations q links t = map with_asset (
    take (page_limit 500 100 q.limit)
      (drop q.offset (sort_by is_newer (select_where (is_selected q) (joined links t)))))
