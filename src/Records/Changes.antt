-- ===== src/Records/Changes.antt =====
-- internal/storage/sqlite/store.go: AddChange, ListChanges and AcknowledgeChange.
use corta_sentry.Prelude.{
  ℕ, ◌+◌, Bool, true, false, ◌&&◌, Option, none, some, List, [], ◌∷◌, ◌++◌, Text, any, ◌==◌,
  list_eq, if◌then◌else◌, update_where, sort_by, take, select_where,
}
use corta_sentry.Jobs.Stamp.{stamp_less}
use corta_sentry.Records.Observations.{page_limit}

-- ChangeType.
pub data ChangeType : Type 0 where
  asset_first_seen asset_disappeared ip_address_changed mac_address_changed new_service
        removed_service http_title_changed certificate_changed classification_changed
        firmware_changed new_potential_finding finding_remediated :
      ChangeType

unfoldable pub type_code : ChangeType → ℕ
type_code asset_first_seen = 1
type_code asset_disappeared = 2
type_code ip_address_changed = 3
type_code mac_address_changed = 4
type_code new_service = 5
type_code removed_service = 6
type_code http_title_changed = 7
type_code certificate_changed = 8
type_code classification_changed = 9
type_code firmware_changed = 10
type_code new_potential_finding = 11
type_code finding_remediated = 12

-- ChangeEvent. The JSON values are their texts.
pub record ChangeEvent : Type 0 where
  pub id : ℕ
  pub asset_id : ℕ
  pub type : ChangeType
  pub previous : Text
  pub current : Text
  pub observation_ids : List ℕ
  pub detected_at : ℕ
  pub first_occurrence : ℕ
  pub last_occurrence : ℕ
  pub acknowledged : Bool

-- A row of change_events.
pub record ChangeRow : Type 0 where
  pub event : ChangeEvent
  pub occurrences : ℕ

-- The columns that make the dedupe_key.
abbrev pub same_key : ChangeEvent → ChangeEvent → Bool
same_key c d =
    type_code d.type == type_code c.type
    && (d.asset_id == c.asset_id && list_eq d.current c.current)

abbrev pub row_of : ChangeEvent → ChangeRow → Bool
row_of c r = same_key c r.event

abbrev pub repeated : ChangeEvent → ChangeRow → ChangeRow
repeated c r = record {
  event = record r.event { last_occurrence = c.last_occurrence };
  occurrences = r.occurrences + 1;
}

-- The row as it is inserted; `fresh` is what newID makes.
abbrev pub first_row : ℕ → ChangeEvent → ChangeRow
first_row fresh c = record {
  event = record c { id = if c.id == 0 then fresh else c.id; acknowledged = false };
  occurrences = 1;
}

-- The insertion of AddChange, or else the update on a conflict of keys. The key is unique, so at most
-- one row is updated.
unfoldable pub upsert_change : ℕ → ChangeEvent → List ChangeRow → List ChangeRow
upsert_change fresh c t =
    if any (row_of c) t then update_where (row_of c) (repeated c) t else t ++ first_row fresh c ∷ []

abbrev pub row_id : ℕ → ChangeRow → Bool
row_id i r = r.event.id == i

-- AddChange. Nothing is answered for an error, which leaves the table as it is: there is no row of the
-- key, and another row has the identifier or the asset is not `known`.
unfoldable pub add_change : (ℕ → Bool) → ℕ → ChangeEvent → List ChangeRow → Option (List ChangeRow)
unfolding upsert_change
add_change known fresh c t =
    if any (row_of c) t
    then some (upsert_change fresh c t)
    else if any (row_id (first_row fresh c).event.id) t
    then none
    else if known c.asset_id
    then some (upsert_change fresh c t)
    else none

abbrev acknowledge : Bool → ChangeRow → ChangeRow
acknowledge ack r = record r { event = record r.event { acknowledged = ack } }

-- AcknowledgeChange; nothing is answered if there is no such row.
unfoldable pub acknowledge_change : ℕ → Bool → List ChangeRow → Option (List ChangeRow)
acknowledge_change i ack t =
    if any (row_id i) t then some (update_where (row_id i) (acknowledge ack) t) else none

abbrev of_asset : Option ℕ → ChangeRow → Bool
of_asset q r = elim q [ none ↦ true | some a ↦ r.event.asset_id == a ]

abbrev detected_later : ChangeRow → ChangeRow → Bool
detected_later a b = stamp_less b.event.detected_at a.event.detected_at

-- ListChanges.
unfoldable pub list_changes : Option ℕ → ℕ → List ChangeRow → List ChangeRow
list_changes asset limit t =
    take (page_limit 500 100 limit) (sort_by detected_later (select_where (of_asset asset) t))
