-- ===== src/Tests/Findings.antt =====
-- internal/findings and the table of findings, on one rule and one device.
use corta_sentry.Prelude.{
  ◌≡◌, refl, true, false, none, some, [], ◌∷◌, str_eq, equal_fold, String, to_lower, list_eq, ◌==◌,
  ok, Memᴰ, first, update_where,
}
use corta_sentry.Findings.Rules.{
  version_confirmed, safely_validated, Finding, Evidence, Versions, Rule, Device, product_grade,
  version_grade, validated_grade, correlate, in_range, evidence, advisory, evaluate,
}
use corta_sentry.Findings.Table.{
  FindingRow, FindingTables, undecided, risk_accepted, filled, note, upsert_finding, state_code,
}
use corta_sentry.Findings.Upsert.{IsUpserted, upsert_finding_lem}

-- A version is its text, and a constraint one version.
abbrev versions : Versions String String
versions = record { new_version = λ s. some s; check = str_eq }

abbrev rule : Rule String
rule = record {
  id = "ADV-1";
  vendor = "Acme";
  product_family = "Cam";
  severity = "high";
  remediation = "update";
  digest = "d";
  affected_versions = "1.2" ∷ [];
  required_evidence = "banner" ∷ [];
  constraints = "1.1" ∷ "1.2" ∷ [];
}

abbrev device : Device
device = record { id = 4; vendor = "ACME"; product_family = "cam"; firmware = "1.2" }

abbrev found : Finding
found = record {
  asset_id = 4;
  advisory_id = "ADV-1";
  state = version_confirmed;
  severity = "high";
  evidence_score = 85;
  source = "local_advisory_rule";
  rule_digest = "d";
  remediation = "update";
  first_seen = 100;
  last_evaluated = 100;
}

evaluates : evaluate versions 100 device (rule ∷ []) ≡ found ∷ []
unfolding evaluate correlate validated_grade version_grade product_grade evidence in_range
    equal_fold to_lower list_eq
evaluates = refl

found_there : Memᴰ found (evaluate versions 100 device (rule ∷ []))
unfolding evaluate correlate validated_grade version_grade product_grade evidence in_range
    equal_fold to_lower list_eq
found_there = Memᴰ.head refl

abbrev given : Evidence
given = record {
  vendor = "ACME";
  product_family = "cam";
  firmware = "1.2";
  product_confirmed = true;
  version_in_range = true;
  safe_validated = true;
}

correlates :
    correlate (advisory versions rule) 4 given
    ≡ ok (record found {
      state = safely_validated;
      evidence_score = 100;
      first_seen = 0;
      last_evaluated = 0;
    })
unfolding correlate validated_grade version_grade product_grade equal_fold to_lower list_eq
correlates = refl

abbrev supplied : FindingRow
supplied = record {
  id = 0;
  finding = record found { first_seen = 0; last_evaluated = 0 };
  product_evidence = [];
  version_evidence = [];
  validation_evidence = [];
  operator_disposition = undecided;
}

abbrev accepted : FindingRow
accepted = record (filled 1 100 supplied) { operator_disposition = risk_accepted }

abbrev tables : FindingTables
tables = record { findings = accepted ∷ []; history = note 1 100 none version_confirmed ∷ [] }

-- An upsert that finds the row keeps its identifier, its first sighting and the operator's decision.
decision_kept :
    upsert_finding (λ a. a == 4) 2 200 supplied tables
    ≡ some (
      false,
      record tables {
        findings =
            record accepted { finding = record found { first_seen = 100; last_evaluated = 200 } }
            ∷ [];
      },
    )
unfolding upsert_finding first update_where state_code
decision_kept = refl

upsert_finding_lem_example :
    IsUpserted
      (λ a. a == 4)
      2
      200
      supplied
      tables
      (upsert_finding (λ a. a == 4) 2 200 supplied tables)
upsert_finding_lem_example = upsert_finding_lem (λ a. a == 4) 2 200 supplied tables
