-- ===== src/Fingerprint/Rank.antt =====
-- internal/fingerprint/rules.go: Evaluate, IsAmbiguous and TestCompiled. sort.Slice is not stable: here
-- candidates of equal scores keep the order of their rules.
pub mod Ranked
use corta_sentry.Prelude.{
  ℕ, ◌+◌, Bool, true, false, not, Option, none, some, List, [], ◌∷◌, if◌then◌else◌, ltb, sort_by,
  all,
}
use corta_sentry.Fingerprint.Model.{
  Evidence, Rule, RuleStatus, status_active, status_deprecated, status_experimental, status_other,
  Candidate, TextLibrary,
}
use corta_sentry.Fingerprint.Match.{evaluate_rule}

abbrev pub is_deprecated : RuleStatus → Bool
is_deprecated status_deprecated = true
is_deprecated status_active = false
is_deprecated status_experimental = false
is_deprecated status_other = false

-- out[i].Score > out[j].Score
abbrev pub scores_higher : Candidate → Candidate → Bool
scores_higher c d = ltb d.score c.score

-- IsAmbiguous, with the margin in millionths.
unfoldable pub is_ambiguous : ℕ → List Candidate → Bool
is_ambiguous delta [] = false
is_ambiguous delta (c ∷ []) = false
is_ambiguous delta (c ∷ d ∷ cs) = not (ltb (d.score + delta) c.score)

-- A fixture of a rule, with what it was loaded with.
pub record Fixture : Type 0 where
  pub evidence : Evidence
  pub should_match : Bool

module _ {F : Type 0} (lib : TextLibrary F) (now : ℕ) where
  -- The loop of Evaluate.
  unfoldable pub candidates : List Rule → List Evidence → List Candidate
  candidates [] ev = []
  candidates (r ∷ rs) ev =
      let rest = candidates rs ev in
      if is_deprecated r.status
      then rest
      else elim (evaluate_rule lib now r ev) [ none ↦ rest | some c ↦ c ∷ rest ]

  -- Evaluate; there is no set of rules before the first load.
  unfoldable pub evaluate : Option (List Rule) → List Evidence → List Candidate
  unfolding candidates
  evaluate none ev = []
  evaluate (some rules) ev = sort_by scores_higher (candidates rules ev)

  abbrev matches_rule : Rule → Fixture → Bool
  matches_rule r f = elim (evaluate_rule lib now r (f.evidence ∷ [])) [
    | none ↦ false
    | some c ↦ true
  ]

  abbrev agrees : Bool → Bool → Bool
  agrees true b = b
  agrees false b = not b

  -- TestCompiled: whether every fixture of every rule behaves as it says.
  unfoldable pub test_compiled : List (Rule × List Fixture) → Bool
  test_compiled [] = true
  test_compiled ((r, fs) ∷ rs) =
      let rest = test_compiled rs in
      if all (λ (f : Fixture). agrees (matches_rule r f) f.should_match) fs then rest else false
