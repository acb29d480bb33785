-- ===== src/Findings/Grade.antt =====
-- internal/findings/advisory.go and rules.go: what the state of a finding says of the evidence.
use corta_sentry.Prelude.{
  ℕ, ◌≡◌, ◌≢◌, refl, sym, ap, subst, ◌∙◌, Bool, true, false, ◌&&◌, not, some, List, [], ◌∷◌, arith,
  str_eq, equal_fold, String, Bool-cases, Option-cases, Result-cases, ok, inl, inr, ◌⊎◌, ◌↔◌, Memᴰ,
  any→mem,
}
use corta_sentry.Findings.Rules.{
  FindingState, potential, likely, version_confirmed, safely_validated, Finding, Advisory, Evidence,
  Versions, Rule, Device, product_grade, version_grade, validated_grade, correlate, in_range,
  evidence, advisory, evaluate,
}

-- The score that belongs to a state, in hundredths.
abbrev pub score_of : FindingState → ℕ
score_of potential = 25
score_of likely = 55
score_of version_confirmed = 85
score_of safely_validated = 100
score_of _ = 0

-- The product is confirmed and its version is known to be affected.
abbrev pub is_affected : Evidence → Bool
is_affected e = e.product_confirmed && not (str_eq e.firmware "") && e.version_in_range

grade_lem :
    (a : Advisory) (e : Evidence) (g : FindingState × ℕ)
    → validated_grade e (version_grade a e) ≡ ok g
    → (g.1 ≡ score_of g.0)
      × ((g.0 ≡ safely_validated) ↔ (e.safe_validated ≡ true))
      × ((g.0 ≡ version_confirmed) ↔ ((is_affected e ≡ true) × (e.safe_validated ≡ false)))
      × (e.safe_validated ≡ true → is_affected e ≡ true)
unfolding validated_grade version_grade product_grade
grade_lem a e g h = (
  ground arith,
  (λ x. ground arith, λ x. ground arith),
  (λ x. (ground arith, ground arith), λ (x, y). ground arith),
  λ x. ground arith,
)

-- A finding that Correlate gives is about the advisory's vendor, its score is that of its state, it
-- is safely validated exactly if the evidence was, and else confirmed by version exactly if the
-- evidence confirms the product and an affected version of it.
pub correlate_lem :
    (a : Advisory) (asset : ℕ) (e : Evidence) (f : Finding)
    → correlate a asset e ≡ ok f
    → (equal_fold a.vendor e.vendor ≡ true)
      × (f.asset_id ≡ asset)
      × (f.advisory_id ≡ a.id)
      × (f.evidence_score ≡ score_of f.state)
      × ((f.state ≡ safely_validated) ↔ (e.safe_validated ≡ true))
      × ((f.state ≡ version_confirmed) ↔ ((is_affected e ≡ true) × (e.safe_validated ≡ false)))
unfolding correlate
correlate_lem a asset e f h = elim (Result-cases (validated_grade e (version_grade a e))) [
  | inr (x, n) ↦ absurd (ground arith)
  | inl (g, y) ↦
      let (s, v, c, k) = grade_lem a e g y in
      let q : f.state ≡ g.0 = ground arith in
      let w : f.evidence_score ≡ g.1 = ground arith in
      (
        ground arith,
        ground arith,
        ground arith,
        w ∙ s ∙ ap score_of (sym q),
        (λ z. v.0 (sym q ∙ z), λ z. q ∙ v.1 z),
        (λ z. c.0 (sym q ∙ z), λ z. q ∙ c.1 z),
      )
]

mem-cons_cases : (f g : Finding) (fs : List Finding) → Memᴰ f (g ∷ fs) → (f ≡ g) ⊎ Memᴰ f fs
mem-cons_cases f g fs (Memᴰ.head e) = inl e
mem-cons_cases f g fs (Memᴰ.tail m) = inr m

module _ {V C : Type 0} (versions : Versions V C) where
  evaluate_step :
      (now : ℕ) (a : Device) (r : Rule C) (rules : List (Rule C))
      → (evaluate versions now a (r ∷ rules) ≡ evaluate versions now a rules)
        ⊎ ((g : Finding) × (correlate (advisory versions r) a.id (evidence versions r a) ≡ ok g)
            × (evaluate versions now a (r ∷ rules)
                ≡ record g { first_seen = now; last_evaluated = now }
                  ∷ evaluate versions now a rules))
  unfolding evaluate
  evaluate_step now a r rules = elim (Bool-cases (equal_fold r.vendor a.vendor)) [
    | inr n ↦ inl (ground arith)
    | inl y ↦ elim (Result-cases (correlate (advisory versions r) a.id (evidence versions r a))) [
      | inr (x, n) ↦ inl (ground arith)
      | inl (g, e) ↦ inr (g, e, ground arith)
    ]
  ]

  -- Each finding of an evaluation comes from Correlate on one of the rules.
  evaluate-mem :
      (now : ℕ) (a : Device) (rules : List (Rule C)) (f : Finding)
      → Memᴰ f (evaluate versions now a rules)
      → (r : Rule C) × (g : Finding) × Memᴰ r rules
        × (correlate (advisory versions r) a.id (evidence versions r a) ≡ ok g)
        × (f ≡ record g { first_seen = now; last_evaluated = now })
  unfolding evaluate
  evaluate-mem now a [] f m = elim m [ ]
  evaluate-mem now a (r ∷ rules) f m = elim (evaluate_step now a r rules) [
    | inl e ↦
        let (s, g, k, c, q) = evaluate-mem now a rules f (subst (Memᴰ f) e m) in
        (s, g, Memᴰ.tail k, c, q)
    | inr (g, c, e) ↦ elim (mem-cons_cases f _ _ (subst (Memᴰ f) e m)) [
      | inl q ↦ (r, g, Memᴰ.head refl, c, q)
      | inr n ↦ let (s, g', k, c', q) = evaluate-mem now a rules f n in (s, g', Memᴰ.tail k, c', q)
    ]
  ]

  in_range_lem :
      (r : Rule C) (firmware : String)
      → in_range versions r firmware ≡ true
      → (v : V) × (c : C) × (versions.new_version firmware ≡ some v)
        × Memᴰ c r.constraints
        × (versions.check c v ≡ true)
  unfolding in_range
  in_range_lem r firmware h = elim (Option-cases (versions.new_version firmware)) [
    | inl n ↦ absurd (ground arith)
    | inr (v, e) ↦
        let (c, m, k) =
          any→mem (λ (c : C). versions.check c v) r.constraints (rw (e, in_range) at h) in
        (v, c, e, m, k)
  ]

  affected_evidence :
      (r : Rule C) (a : Device)
      → is_affected (evidence versions r a) ≡ true
      → (equal_fold r.product_family a.product_family ≡ true)
        × (in_range versions r a.firmware ≡ true)
  unfolding evidence
  affected_evidence r a h = (ground arith, ground arith)

  -- A finding of an evaluation that is confirmed by version comes from a rule of the asset's vendor
  -- and product family, one of whose constraints accepts the version of the asset's firmware.
  pub evaluate_version_confirmed :
      (now : ℕ) (a : Device) (rules : List (Rule C)) (f : Finding)
      → Memᴰ f (evaluate versions now a rules)
      → f.state ≡ version_confirmed
      → (r : Rule C) × Memᴰ r rules
        × (f.advisory_id ≡ r.id)
        × (f.asset_id ≡ a.id)
        × (equal_fold r.vendor a.vendor ≡ true)
        × (equal_fold r.product_family a.product_family ≡ true)
        × ((v : V) × (c : C) × (versions.new_version a.firmware ≡ some v)
            × Memᴰ c r.constraints
            × (versions.check c v ≡ true))
  unfolding evidence
  evaluate_version_confirmed now a rules f m s =
      let (r, g, k, c, q) = evaluate-mem now a rules f m in
      let (v, i, d, w, safe, affected) =
        correlate_lem (advisory versions r) a.id (evidence versions r a) g c in
      let t : g.state ≡ version_confirmed = sym (ap (λ (x : Finding). x.state) q) ∙ s in
      let (p, range) = affected_evidence r a (affected.0 t).0 in
      (
        r,
        k,
        ap (λ (x : Finding). x.advisory_id) q ∙ d,
        ap (λ (x : Finding). x.asset_id) q ∙ i,
        v,
        p,
        in_range_lem r a.firmware range,
      )

  -- No finding of an evaluation is safely validated.
  pub evaluate_not_validated :
      (now : ℕ) (a : Device) (rules : List (Rule C)) (f : Finding)
      → Memᴰ f (evaluate versions now a rules)
      → f.state ≢ safely_validated
  unfolding evidence
  evaluate_not_validated now a rules f m s =
      let (r, g, k, c, q) = evaluate-mem now a rules f m in
      let (v, i, d, w, safe, affected) =
        correlate_lem (advisory versions r) a.id (evidence versions r a) g c in
      let t : g.state ≡ safely_validated = sym (ap (λ (x : Finding). x.state) q) ∙ s in
      let z : false ≡ true = safe.0 t in cc
