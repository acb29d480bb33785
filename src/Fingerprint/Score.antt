-- ===== src/Fingerprint/Score.antt =====
-- internal/fingerprint/rules.go: the bounds on the score of a candidate.
use mathlib.Core.List.{append-nil}
use corta_sentry.Prelude.{
  ℕ, ◌+◌, ◌≤◌, ◌≡◌, ◌≢◌, refl, subst, true, false, Option, none, some, List, [], ◌∷◌, ◌++◌, ◌==◌,
  arith, Bool-cases, Option-cases, inl, inr, All, ltb,
}
use corta_sentry.Fingerprint.Model.{Predicate, Evidence, Rule, Contribution, Candidate, TextLibrary}
use corta_sentry.Fingerprint.Match.{
  match_any, requirements_met, source_total, capped, add_positive, add_negative, final_score,
  stale_penalty, stale_entry, gathered, evaluate_rule, freshest, blank,
}

module _ {F : Type 0} (lib : TextLibrary F) where
  requirements-All :
      (ps : List Predicate) (ev : List Evidence)
      → requirements_met lib ps ev ≡ true
      → All (λ p. match_any lib p ev ≢ none) ps
  unfolding requirements_met
  requirements-All [] ev h = tt
  requirements-All (p ∷ ps) ev h = elim (Option-cases (match_any lib p ev)) [
    | inl n ↦ absurd (ground arith)
    | inr (e, y) ↦ (λ z. cc, requirements-All ps ev (ground arith))
  ]

  -- What a contribution adds to the total of a source.
  abbrev share : ℕ → Contribution → ℕ
  share s c = source_total lib s (c ∷ [])

  total-append :
      (s : ℕ) (cs : List Contribution) (c : Contribution)
      → source_total lib s (cs ++ c ∷ []) ≡ source_total lib s cs + share s c
  unfolding source_total
  total-append s [] c = ground arith
  total-append s (d ∷ cs) c = elim (Option-cases d.source) [
    | inl n ↦ ground (arith, total-append s cs c)
    | inr (t, e) ↦ ground (arith, total-append s cs c)
  ]

  -- No source has more than 0.65 of positive contributions.
  abbrev Capped : List Contribution → Type 0
  Capped cs = (s : ℕ) → source_total lib s cs ≤ 650000

  own_share :
      (cs : List Contribution) (e : Evidence) (w : ℕ)
      → source_total lib e.source cs ≤ 650000
      → source_total lib e.source (
          cs
          ++ record {
            source = some e.source;
            observation_id = e.observation_id;
            value = capped lib (source_total lib e.source cs) w;
            penalty = false;
          }
            ∷ [])
        ≤ 650000
  unfolding source_total
  own_share cs e w h =
      let x : Contribution = record {
        source = some e.source;
        observation_id = e.observation_id;
        value = capped lib (source_total lib e.source cs) w;
        penalty = false;
      } in
      let q = total-append e.source cs x in ground arith

  capped_next :
      (cs : List Contribution) (e : Evidence) (w : ℕ)
      → Capped cs
      → Capped (
          cs
          ++ record {
            source = some e.source;
            observation_id = e.observation_id;
            value = capped lib (source_total lib e.source cs) w;
            penalty = false;
          }
            ∷ [])
  unfolding source_total
  capped_next cs e w h s =
      let x : Contribution = record {
        source = some e.source;
        observation_id = e.observation_id;
        value = capped lib (source_total lib e.source cs) w;
        penalty = false;
      } in
      elim (Bool-cases (e.source == s)) [
        | inl y ↦
            let q : e.source ≡ s = ground arith in
            subst (λ (t : ℕ). source_total lib t (cs ++ x ∷ []) ≤ 650000) q
              (own_share cs e w (h e.source))
        | inr n ↦ ground (arith, total-append s cs x, h s)
      ]

  penalty_next :
      (cs : List Contribution) (c : Contribution)
      → c.penalty ≡ true
      → Capped cs
      → Capped (cs ++ c ∷ [])
  unfolding source_total
  penalty_next cs c p h s = elim (Option-cases c.source) [
    | inl n ↦ ground (arith, total-append s cs c, h s)
    | inr (t, e) ↦ ground (arith, total-append s cs c, h s)
  ]

  positive-Capped :
      (ps : List Predicate) (ev : List Evidence) (c : Candidate)
      → Capped c.breakdown
      → Capped (add_positive lib ps ev c).breakdown
  unfolding add_positive
  positive-Capped [] ev c h = h
  positive-Capped (p ∷ ps) ev c h = elim (Option-cases (match_any lib p ev)) [
    | inl n ↦ rw (n, add_positive) (positive-Capped ps ev c h)
    | inr (e, y) ↦
        rw (y, add_positive) (positive-Capped ps ev _ (capped_next c.breakdown e p.weight h))
  ]

  negative-Capped :
      (ps : List Predicate) (ev : List Evidence) (c : Candidate)
      → Capped c.breakdown
      → Capped (add_negative lib ps ev c).breakdown
  unfolding add_negative
  negative-Capped [] ev c h = h
  negative-Capped (p ∷ ps) ev c h = elim (Option-cases (match_any lib p ev)) [
    | inl n ↦ rw (n, add_negative) (negative-Capped ps ev c h)
    | inr (e, y) ↦
        rw (y, add_negative) (negative-Capped ps ev _ (penalty_next c.breakdown _ refl h))
  ]

  stale-Capped :
      (cs : List Contribution) (o : Option ℕ) → Capped cs → Capped (cs ++ stale_entry lib o)
  unfolding source_total
  stale-Capped cs none h = λ s. rw (append-nil cs) (h s)
  stale-Capped cs (some x) h = penalty_next cs _ refl h

  gathered-Capped : (r : Rule) (ev : List Evidence) → Capped (gathered lib r ev).breakdown
  unfolding gathered source_total
  gathered-Capped r ev =
      negative-Capped r.negative ev (add_positive lib r.positive ev (blank lib r))
        (positive-Capped r.positive ev (blank lib r) (λ s. omega arith))

  -- What a rule's candidate is: its score is above 0 and at most 1, all that the rule requires was
  -- matched, and no source contributes more than 0.65.
  pub record IsCandidate (r : Rule) (ev : List Evidence) (c : Candidate) : Type 0 where
    pub positive : 1 ≤ c.score
    pub bounded : c.score ≤ 1000000
    pub required : All (λ p. match_any lib p ev ≢ none) r.required
    pub capped_sources : (s : ℕ) → source_total lib s c.breakdown ≤ 650000

  score_bound : (r : Rule) (c : Candidate) (o : Option ℕ) → final_score lib r c o ≤ 1000000
  unfolding final_score
  score_bound r c o = ground arith

  -- A rule gives a candidate only if all that it requires is matched; its score is above 0 and at
  -- most 1, and the positive contributions of one source never exceed 0.65.
  pub evaluate_rule-IsCandidate :
      (now : ℕ) (r : Rule) (ev : List Evidence) (c : Candidate)
      → evaluate_rule lib now r ev ≡ some c
      → IsCandidate r ev c
  unfolding evaluate_rule
  evaluate_rule-IsCandidate now r ev c h =
      let g = gathered lib r ev in
      let stale = stale_penalty lib now (freshest lib ev) in
      let b = score_bound r g stale in
      let met : requirements_met lib r.required ev ≡ true = ground arith in
      let q : record g {
        score = final_score lib r g stale;
        breakdown = g.breakdown ++ stale_entry lib stale;
      }
          ≡ c =
        ground arith in
      let above : ltb 0 (final_score lib r g stale) ≡ true = ground arith in
      subst (IsCandidate r ev) q (record {
        positive = ground arith;
        bounded = b;
        required = requirements-All r.required ev met;
        capped_sources = stale-Capped g.breakdown stale (gathered-Capped r ev);
      })
