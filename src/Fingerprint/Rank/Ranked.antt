-- ===== src/Fingerprint/Rank/Ranked.antt =====
-- internal/fingerprint/rules.go: the candidates that Evaluate answers with.
use corta_sentry.Prelude.{
  ℕ, ◌≤◌, ◌≡◌, refl, true, false, some, List, [], ◌∷◌, sort_by, arith, Memᴰ, Bool-cases,
  Option-cases, inl, inr, All, All-sort_by, IsSorted, sort_by-IsSorted,
}
use corta_sentry.Fingerprint.Model.{Evidence, Rule, Candidate, TextLibrary}
use corta_sentry.Fingerprint.Match.{evaluate_rule}
use corta_sentry.Fingerprint.Score.{IsCandidate, evaluate_rule-IsCandidate}
use corta_sentry.Fingerprint.Rank.{is_deprecated, scores_higher, candidates, evaluate}

module _ {F : Type 0} (lib : TextLibrary F) (now : ℕ) where
  -- A candidate of one of the rules, which is not deprecated.
  abbrev pub IsFrom : List Rule → List Evidence → Candidate → Type 0
  IsFrom rules ev c =
      (r : Rule) × Memᴰ r rules × (is_deprecated r.status ≡ false) × IsCandidate lib r ev c

  candidates-IsFrom :
      (rules all : List Rule) (ev : List Evidence)
      → ((r : Rule) → Memᴰ r rules → Memᴰ r all)
      → All (IsFrom all ev) (candidates lib now rules ev)
  unfolding candidates
  candidates-IsFrom [] all ev sub = tt
  candidates-IsFrom (r ∷ rs) all ev sub =
      let ih = candidates-IsFrom rs all ev (λ x m. sub x (Memᴰ.tail m)) in
      elim (Bool-cases (is_deprecated r.status)) [
        | inl y ↦ rw (y, candidates) ih
        | inr n ↦ elim (Option-cases (evaluate_rule lib now r ev)) [
          | inl z ↦ rw (n, z, candidates) ih
          | inr (c, e) ↦
              rw (n, e, candidates)
                ((r, sub r (Memᴰ.head refl), n, evaluate_rule-IsCandidate lib now r ev c e), ih)
        ]
      ]

  higher_asymm : (a b : Candidate) → scores_higher a b ≡ true → scores_higher b a ≡ false
  higher_asymm a b h = ground arith

  -- The best of a ranking: nothing scores higher.
  abbrev pub IsBest : List Candidate → Type 0
  IsBest [] = Unit
  IsBest (c ∷ cs) = All (λ (d : Candidate). d.score ≤ c.score) cs

  sorted_below :
      (b : ℕ) (c : Candidate) (cs : List Candidate)
      → IsSorted scores_higher (c ∷ cs)
      → c.score ≤ b
      → All (λ (d : Candidate). d.score ≤ b) (c ∷ cs)
  sorted_below b c [] h k = (k, tt)
  sorted_below b c (d ∷ cs) h k = (k, sorted_below b d cs h.1 (ground arith))

  IsBest-of_sorted : (cs : List Candidate) → IsSorted scores_higher cs → IsBest cs
  IsBest-of_sorted [] h = tt
  IsBest-of_sorted (c ∷ cs) h = (sorted_below c.score c cs h (omega arith)).1

  -- Evaluate answers with candidates of rules that are not deprecated only, each with a score above
  -- 0 and at most 1 for a rule whose requirements are all matched, and ranked: none scores higher
  -- than the one before it, so that the first is the best.
  pub evaluate-IsRanked :
      (rules : List Rule) (ev : List Evidence)
      → let cs = evaluate lib now (some rules) ev in
        All (IsFrom rules ev) cs × IsSorted scores_higher cs × IsBest cs
  unfolding evaluate
  evaluate-IsRanked rules ev =
      let cs = candidates lib now rules ev in
      let s = sort_by-IsSorted scores_higher higher_asymm cs in
      (
        All-sort_by scores_higher (IsFrom rules ev) cs
            (candidates-IsFrom rules rules ev (λ r m. m)),
        s,
        IsBest-of_sorted (sort_by scores_higher cs) s,
      )
