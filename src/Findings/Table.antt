-- ===== src/Findings/Table.antt =====
-- internal/storage/sqlite/store.go: the tables findings and finding_history.
use corta_sentry.Prelude.{
  ℕ, Bool, true, false, ◌&&◌, not, Option, none, some, List, [], ◌∷◌, ◌++◌, ◌==◌, str_eq, String,
  if◌then◌else◌, Result, ok, err, first, update_where, Text, any, ◌||◌,
}
use corta_sentry.Findings.Rules.{
  FindingState, potential, likely, version_confirmed, safely_validated, remediated, accepted_risk,
  false_positive, Finding,
}

-- An operator's disposition; `undecided` is the empty text.
pub data Disposition : Type 0 where
  undecided risk_accepted marked_false marked_remediated other_disposition : Disposition

-- A whole finding, as the caller of UpsertFinding supplies it and as a row holds it. An identifier of
-- 0 is the empty text, and a time of 0 the zero time.
pub record FindingRow : Type 0 where
  pub id : ℕ
  pub finding : Finding
  pub product_evidence : Text
  pub version_evidence : Text
  pub validation_evidence : Text
  pub operator_disposition : Disposition

-- A row of finding_history. The old state of a new finding is the empty text, `none`.
pub record HistoryRow : Type 0 where
  pub finding_id : ℕ
  pub at : ℕ
  pub old_state : Option FindingState
  pub new_state : FindingState

pub record FindingTables : Type 0 where
  pub findings : List FindingRow
  pub history : List HistoryRow

pub data FindingError : Type 0 where
  invalid_disposition no_such_finding : FindingError

unfoldable pub state_code : FindingState → ℕ
state_code potential = 0
state_code likely = 1
state_code version_confirmed = 2
state_code safely_validated = 3
state_code remediated = 4
state_code accepted_risk = 5
state_code false_positive = 6

-- WHERE asset_id=? AND advisory_id=?
abbrev pub is_about : ℕ → String → FindingRow → Bool
is_about asset advisory r = r.finding.asset_id == asset && str_eq r.finding.advisory_id advisory

abbrev pub or_object : Text → Text
or_object [] = b'{' ∷ b'}' ∷ []
or_object e = e

abbrev pub or_time : ℕ → ℕ → ℕ
or_time default at = if at == 0 then default else at

-- The finding with what UpsertFinding fills in: an identifier, two times, and empty evidence.
abbrev pub filled : ℕ → ℕ → FindingRow → FindingRow
filled fresh now f =
    let seen = or_time now f.finding.first_seen in
    record f {
      id = or_time fresh f.id;
      finding = record f.finding {
        first_seen = seen;
        last_evaluated = or_time seen f.finding.last_evaluated;
      };
      product_evidence = or_object f.product_evidence;
      version_evidence = or_object f.version_evidence;
      validation_evidence = or_object f.validation_evidence;
    }

-- The update of a row that is there: its first sighting and the disposition are kept.
abbrev pub refreshed : FindingRow → FindingRow → FindingRow
refreshed f r = record f {
  id = r.id;
  finding = record f.finding {
    asset_id = r.finding.asset_id;
    advisory_id = r.finding.advisory_id;
    first_seen = r.finding.first_seen;
  };
  operator_disposition = r.operator_disposition;
}

abbrev pub note : ℕ → ℕ → Option FindingState → FindingState → HistoryRow
note i now old new = record { finding_id = i; at = now; old_state = old; new_state = new }

-- Whether the insertion of a row violates a key: its asset must be one that is `known`, and no other
-- row may have its identifier.
abbrev pub violates : (ℕ → Bool) → FindingRow → List FindingRow → Bool
violates known f rows =
    not (known f.finding.asset_id) || any (λ (r : FindingRow). r.id == f.id) rows

-- UpsertFinding, with what newID and the clock give. Nothing is answered for an error, which leaves
-- the tables as they are; the answer tells whether a row was created.
unfoldable pub upsert_finding :
    (ℕ → Bool) → ℕ → ℕ → FindingRow → FindingTables → Option (Bool × FindingTables)
upsert_finding known fresh now given t =
    let f = filled fresh now given in
    elim (first (is_about f.finding.asset_id f.finding.advisory_id) t.findings) [
      | none ↦
          if violates known f t.findings
          then none
          else some (
            true,
            record {
              findings = t.findings ++ f ∷ [];
              history = t.history ++ note f.id now none f.finding.state ∷ [];
            },
          )
      | some r ↦ some (
        false,
        record {
          findings = update_where (λ x. x.id == r.id) (refreshed f) t.findings;
          history =
              if state_code r.finding.state == state_code f.finding.state
              then t.history
              else t.history ++ note r.id now (some r.finding.state) f.finding.state ∷ [];
        },
      )
    ]

abbrev pub is_allowed : Disposition → Bool
is_allowed other_disposition = false
is_allowed _ = true

-- UpdateFindingDisposition.
unfoldable pub update_finding_disposition :
    ℕ → Disposition → FindingTables → Result FindingError (Unit {0}) × FindingTables
update_finding_disposition i d t =
    if not (is_allowed d)
    then (err invalid_disposition, t)
    else elim (first (λ (r : FindingRow). r.id == i) t.findings) [
      | none ↦ (err no_such_finding, t)
      | some r ↦ (
        ok tt,
        record t {
          findings =
              update_where (λ x. x.id == i) (λ x. record x { operator_disposition = d }) t.findings;
        },
      )
    ]
