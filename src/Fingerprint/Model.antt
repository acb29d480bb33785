-- ===== src/Fingerprint/Model.antt =====
-- internal/fingerprint/rules.go and internal/domain/models.go: rules, evidence and candidates. Scores
-- and weights are millionths.
use corta_sentry.Prelude.{ℕ, Bool, Option, List, Text}

pub data Operator : Type 0 where
  op_exists op_equals op_contains op_prefix op_suffix op_regex op_in op_gt op_gte op_lt op_lte :
      Operator
  op_port_present op_service_present op_unknown : Operator

-- Predicate. `values` is the value as a list, if it is one; `source` is none for any source.
pub record Predicate : Type 0 where
  pub source : Option ℕ
  pub field : ℕ
  pub operator : Operator
  pub value : Text
  pub values : Option (List Text)
  pub weight : ℕ
  pub explanation : Text

pub record Evidence : Type 0 where
  pub observation_id : ℕ
  pub source : ℕ
  pub observed_at : ℕ
  pub fields : List (ℕ × Text)

pub data RuleStatus : Type 0 where
  status_active status_deprecated status_experimental status_other : RuleStatus

pub record Rule : Type 0 where
  pub id : ℕ
  pub status : RuleStatus
  pub has_model : Bool
  pub required : List Predicate
  pub positive : List Predicate
  pub negative : List Predicate

-- ScoreContribution; a negative one is a penalty.
pub record Contribution : Type 0 where
  pub source : Option ℕ
  pub observation_id : ℕ
  pub value : ℕ
  pub penalty : Bool

-- FingerprintCandidate, less the columns that are copied from the rule.
pub record Candidate : Type 0 where
  pub rule_id : ℕ
  pub score : ℕ
  pub supporting : List Text
  pub opposing : List Text
  pub observation_ids : List ℕ
  pub source_diversity : ℕ
  pub breakdown : List Contribution

pub record TextLibrary (F : Type 0) : Type 0 where
  pub regex_matches : Text → Text → Bool
  pub parse_float : Text → Option F
  pub float_less : F → F → Bool
  pub float_leq : F → F → Bool
