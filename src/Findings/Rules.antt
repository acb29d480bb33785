-- ===== src/Findings/Rules.antt =====
-- internal/findings/advisory.go and rules.go: which findings the advisory rules give an asset.
-- Scores are hundredths. Versions and constraints are those of a library, as parameters.
use corta_sentry.Prelude.{
  ℕ, Bool, true, false, ◌&&◌, ◌||◌, not, Option, none, some, List, [], ◌∷◌, any, String, str_eq,
  equal_fold, if◌then◌else◌, Result, ok, err,
}

-- domain.FindingState.
pub data FindingState : Type 0 where
  potential likely version_confirmed safely_validated remediated accepted_risk false_positive :
      FindingState

pub record Advisory : Type 0 where
  pub id : String
  pub vendor : String
  pub product_family : String
  pub severity : String
  pub remediation : String
  pub rule_digest : String
  pub affected_versions : List String
  pub required_evidence : List String

pub record Evidence : Type 0 where
  pub vendor : String
  pub product_family : String
  pub firmware : String
  pub product_confirmed : Bool
  pub version_in_range : Bool
  pub safe_validated : Bool

-- The fields of domain.Finding that Correlate and Evaluate set.
pub record Finding : Type 0 where
  pub asset_id : ℕ
  pub advisory_id : String
  pub state : FindingState
  pub severity : String
  pub evidence_score : ℕ
  pub source : String
  pub rule_digest : String
  pub remediation : String
  pub first_seen : ℕ
  pub last_evaluated : ℕ

pub data CorrelateError : Type 0 where
  invalid_advisory vendor_mismatch unconfirmed_validation : CorrelateError

abbrev pub is_version_confirmed : FindingState → Bool
is_version_confirmed version_confirmed = true
is_version_confirmed _ = false

-- The two tests that raise the state, in their order.
unfoldable pub product_grade : Advisory → Evidence → FindingState × ℕ
product_grade a e =
    if e.product_confirmed && equal_fold a.product_family e.product_family
    then (likely, 55)
    else (potential, 25)

unfoldable pub version_grade : Advisory → Evidence → FindingState × ℕ
version_grade a e =
    if e.product_confirmed && not (str_eq e.firmware "") && e.version_in_range
    then (version_confirmed, 85)
    else product_grade a e

-- What safe validation makes of a grade.
unfoldable pub validated_grade :
    Evidence → FindingState × ℕ → Result CorrelateError (FindingState × ℕ)
validated_grade e g =
    if e.safe_validated
    then (if is_version_confirmed g.0
        then ok (safely_validated, 100)
        else err unconfirmed_validation)
    else ok g

-- Correlate.
unfoldable pub correlate : Advisory → ℕ → Evidence → Result CorrelateError Finding
correlate a asset e =
    if str_eq a.id "" || str_eq a.vendor ""
    then err invalid_advisory
    else if not (equal_fold a.vendor e.vendor)
    then err vendor_mismatch
    else elim (validated_grade e (version_grade a e)) [
      | err x ↦ err x
      | ok g ↦ ok (record {
        asset_id = asset;
        advisory_id = a.id;
        state = g.0;
        severity = a.severity;
        evidence_score = g.1;
        source = "local_advisory_rule";
        rule_digest = a.rule_digest;
        remediation = a.remediation;
        first_seen = 0;
        last_evaluated = 0;
      })
    ]

-- The library for versions: semver.NewVersion and Constraints.Check.
pub record Versions (V C : Type 0) : Type 0 where
  pub new_version : String → Option V
  pub check : C → V → Bool

-- A rule of a bundle, with its parsed constraints.
pub record Rule (C : Type 0) : Type 0 where
  pub id : String
  pub vendor : String
  pub product_family : String
  pub severity : String
  pub remediation : String
  pub digest : String
  pub affected_versions : List String
  pub required_evidence : List String
  pub constraints : List C

-- The columns of an asset that Evaluate reads.
pub record Device : Type 0 where
  pub id : ℕ
  pub vendor : String
  pub product_family : String
  pub firmware : String

module _ {V C : Type 0} (versions : Versions V C) where
  unfoldable pub in_range : Rule C → String → Bool
  in_range r firmware = elim (versions.new_version firmware) [
    | none ↦ false
    | some v ↦ any (λ c. versions.check c v) r.constraints
  ]

  abbrev pub confirmed : Rule C → Device → Bool
  confirmed r a = not (str_eq a.product_family "") && equal_fold r.product_family a.product_family

  unfoldable pub evidence : Rule C → Device → Evidence
  evidence r a = record {
    vendor = a.vendor;
    product_family = a.product_family;
    firmware = a.firmware;
    product_confirmed = confirmed r a;
    version_in_range = confirmed r a && not (str_eq a.firmware "") && in_range r a.firmware;
    safe_validated = false;
  }

  -- The advisory that Evaluate passes on: it has no required evidence.
  abbrev pub advisory : Rule C → Advisory
  advisory r = record {
    id = r.id;
    vendor = r.vendor;
    product_family = r.product_family;
    severity = r.severity;
    remediation = r.remediation;
    rule_digest = r.digest;
    affected_versions = r.affected_versions;
    required_evidence = [];
  }

  -- Evaluate on the rules of the current bundle; without a bundle there are none.
  unfoldable pub evaluate : ℕ → Device → List (Rule C) → List Finding
  evaluate now a [] = []
  evaluate now a (r ∷ rules) =
      let rest = evaluate now a rules in
      if not (equal_fold r.vendor a.vendor)
      then rest
      else elim (correlate (advisory r) a.id (evidence r a)) [
        | err x ↦ rest
        | ok f ↦ record f { first_seen = now; last_evaluated = now } ∷ rest
      ]
