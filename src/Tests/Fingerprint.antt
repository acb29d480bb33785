-- ===== src/Tests/Fingerprint.antt =====
-- internal/fingerprint/rules.go on one rule and two pieces of evidence.
use corta_sentry.Prelude.{
  ℕ, ◌≡◌, refl, true, false, none, some, [], ◌∷◌, elem, list_eq, to_lower, All, IsSorted,
}
use corta_sentry.Fingerprint.Model.{
  Predicate, op_equals, op_exists, Evidence, Rule, status_active, Candidate, TextLibrary,
}
use corta_sentry.Fingerprint.Match.{
  match_any, matches, lookup, requirements_met, source_total, add_positive, add_negative, sum_of,
  sources_of, freshest, stale_penalty, diversity_bonus, final_score, gathered, evaluate_rule,
}
use corta_sentry.Fingerprint.Rank.{scores_higher, evaluate}
use corta_sentry.Fingerprint.Rank.Ranked.{IsFrom, IsBest, evaluate-IsRanked}

abbrev library : TextLibrary ℕ
library = record {
  regex_matches = λ p s. false;
  parse_float = λ s. none;
  float_less = λ a b. false;
  float_leq = λ a b. false;
}

abbrev title_equals : ℕ → Predicate
title_equals w = record {
  source = some 1;
  field = 4;
  operator = op_equals;
  value = b'C' ∷ b'a' ∷ b'm' ∷ [];
  values = none;
  weight = w;
  explanation = [];
}

abbrev banner_exists : Predicate
banner_exists = record {
  source = none;
  field = 2;
  operator = op_exists;
  value = [];
  values = none;
  weight = 200000;
  explanation = [];
}

abbrev camera : Rule
camera = record {
  id = 9;
  status = status_active;
  has_model = true;
  required = banner_exists ∷ [];
  positive = title_equals 500000 ∷ title_equals 400000 ∷ banner_exists ∷ [];
  negative = [];
}

abbrev title : Evidence
title = record {
  observation_id = 1;
  source = 1;
  observed_at = 100;
  fields = (4, b'c' ∷ b'A' ∷ b'M' ∷ []) ∷ [];
}

abbrev banner : Evidence
banner = record { observation_id = 2; source = 2; observed_at = 90; fields = (2, []) ∷ [] }

-- 0.5 and 0.15 of the first source, 0.2 of the second, and two bonuses of 0.05.
abbrev seen_camera : Candidate
seen_camera = record {
  rule_id = 9;
  score = 950000;
  supporting = [] ∷ [] ∷ [] ∷ [];
  opposing = [];
  observation_ids = 1 ∷ 2 ∷ [];
  source_diversity = 2;
  breakdown =
      record { source = some 1; observation_id = 1; value = 500000; penalty = false }
      ∷ record { source = some 1; observation_id = 1; value = 150000; penalty = false }
      ∷ record { source = some 2; observation_id = 2; value = 200000; penalty = false }
      ∷ [];
}

camera_found : evaluate_rule library 200 camera (title ∷ banner ∷ []) ≡ some seen_camera
unfolding evaluate_rule gathered final_score stale_penalty freshest diversity_bonus sources_of
    sum_of add_positive add_negative source_total requirements_met match_any matches lookup list_eq
    to_lower elem
camera_found = refl

evaluate-IsRanked_example :
    let cs = evaluate library 200 (some (camera ∷ [])) (title ∷ banner ∷ []) in
    All (IsFrom library 200 (camera ∷ []) (title ∷ banner ∷ [])) cs
    × IsSorted scores_higher cs
    × IsBest library 200 cs
evaluate-IsRanked_example = evaluate-IsRanked library 200 (camera ∷ []) (title ∷ banner ∷ [])
