-- ===== src/Fingerprint/Match.antt =====
-- internal/fingerprint/rules.go: predicates on evidence and the score of a rule. Scores and weights
-- are millionths, and a weight below 0 is 0 among the positive predicates and its absolute value
-- among the negative ones, as the code treats it. Field values are their printed texts. Regular
-- expressions and the parsing of numbers are a library's, as parameters.
use corta_sentry.Prelude.{
  ℕ, ◌+◌, ◌-◌, ◌*◌, ◌/◌, min, Bool, true, false, ◌&&◌, ◌||◌, not, Option, none, some, List, [], ◌∷◌,
  ◌++◌, any, map, length, elem, Text, ltb, leb, ◌==◌, list_eq, to_lower, if◌then◌else◌,
}
use corta_sentry.Fingerprint.Model.{
  Candidate, Contribution, Evidence, Predicate, Rule, TextLibrary, op_contains, op_equals,
  op_exists, op_gt, op_gte, op_in, op_lt, op_lte, op_port_present, op_prefix, op_regex,
  op_service_present, op_suffix, op_unknown,
}

abbrev pub lower : Text → Text
lower s = map to_lower s

abbrev pub fold_eq : Text → Text → Bool
fold_eq s t = list_eq (lower s) (lower t)

-- strings.HasPrefix, Contains and HasSuffix.
unfoldable pub has_prefix : Text → Text → Bool
has_prefix s [] = true
has_prefix [] (c ∷ p) = false
has_prefix (d ∷ s) (c ∷ p) = let rest = has_prefix s p in d == c && rest

unfoldable pub contains : Text → Text → Bool
contains [] p = has_prefix [] p
contains (c ∷ s) p = let rest = contains s p in has_prefix (c ∷ s) p || rest

unfoldable pub has_suffix : Text → Text → Bool
has_suffix [] p = list_eq [] p
has_suffix (c ∷ s) p = let rest = has_suffix s p in list_eq (c ∷ s) p || rest

unfoldable pub lookup : ℕ → List (ℕ × Text) → Option Text
lookup k [] = none
lookup k ((j, v) ∷ fields) = let rest = lookup k fields in if j == k then some v else rest

-- fmt.Sprint of a missing value.
abbrev pub nil_text : Text
nil_text = b'<' ∷ b'n' ∷ b'i' ∷ b'l' ∷ b'>' ∷ []

abbrev pub or_nil : Option Text → Text
or_nil none = nil_text
or_nil (some v) = v

abbrev pub is_there : Option Text → Bool
is_there none = false
is_there (some v) = true

module _ {F : Type 0} (lib : TextLibrary F) where
  abbrev pub compare_floats : (F → F → Bool) → Text → Text → Bool
  compare_floats test got want = elim (lib.parse_float got) [
    | none ↦ false
    | some g ↦ elim (lib.parse_float want) [ none ↦ false | some w ↦ test g w ]
  ]

  -- match.
  unfoldable pub matches : Predicate → Option Text → Bool
  matches p v =
      let got = or_nil v in
      let there = is_there v in
      elim p.operator [
        | op_exists ↦ there
        | op_equals ↦ there && fold_eq got p.value
        | op_contains ↦ there && contains (lower got) (lower p.value)
        | op_prefix ↦ there && has_prefix (lower got) (lower p.value)
        | op_suffix ↦ there && has_suffix (lower got) (lower p.value)
        | op_regex ↦ there && lib.regex_matches p.value got
        | op_in ↦ elim p.values [ none ↦ false | some vs ↦ any (λ x. fold_eq x got) vs ]
        | op_gt ↦ compare_floats (λ g w. lib.float_less w g) got p.value
        | op_gte ↦ compare_floats (λ g w. lib.float_leq w g) got p.value
        | op_lt ↦ compare_floats lib.float_less got p.value
        | op_lte ↦ compare_floats lib.float_leq got p.value
        | op_port_present ↦ there && list_eq got p.value
        | op_service_present ↦ there && fold_eq got p.value
        | op_unknown ↦ false
      ]

  abbrev pub concerns : Predicate → Evidence → Bool
  concerns p e = elim p.source [ none ↦ true | some s ↦ s == e.source ]

  -- matchAny: the first piece of evidence that the predicate matches.
  unfoldable pub match_any : Predicate → List Evidence → Option Evidence
  match_any p [] = none
  match_any p (e ∷ ev) =
      let rest = match_any p ev in
      if concerns p e && matches p (lookup p.field e.fields) then some e else rest

  -- The loop over the required predicates: the first that nothing matches ends it.
  unfoldable pub requirements_met : List Predicate → List Evidence → Bool
  requirements_met [] ev = true
  requirements_met (p ∷ ps) ev =
      let rest = requirements_met ps ev in elim (match_any p ev) [ none ↦ false | some e ↦ rest ]

  -- sourceTotals[src], a map with 0 for what is missing.
  unfoldable pub source_total : ℕ → List Contribution → ℕ
  source_total s [] = 0
  source_total s (c ∷ cs) =
      let rest = source_total s cs in
      elim c.source [
        | none ↦ rest
        | some t ↦ if t == s && not c.penalty then c.value + rest else rest
      ]

  -- The weight of a positive match, capped so that its source does not exceed 0.65.
  abbrev pub capped : ℕ → ℕ → ℕ
  capped used w = if ltb 650000 (used + w) then 650000 - used else w

  -- The loop over the positive predicates. The totals of the sources are read off the breakdown,
  -- where the loop has written each contribution.
  unfoldable pub add_positive : List Predicate → List Evidence → Candidate → Candidate
  add_positive [] ev c = c
  add_positive (p ∷ ps) ev c = add_positive ps ev (elim (match_any p ev) [
    | none ↦ c
    | some e ↦ record c {
      supporting = c.supporting ++ p.explanation ∷ [];
      observation_ids =
          if elem ◌==◌ e.observation_id c.observation_ids
          then c.observation_ids
          else c.observation_ids ++ e.observation_id ∷ [];
      breakdown =
          c.breakdown
          ++ record {
            source = some e.source;
            observation_id = e.observation_id;
            value = capped (source_total e.source c.breakdown) p.weight;
            penalty = false;
          }
            ∷ [];
    }
  ])

  unfoldable pub add_negative : List Predicate → List Evidence → Candidate → Candidate
  add_negative [] ev c = c
  add_negative (p ∷ ps) ev c = add_negative ps ev (elim (match_any p ev) [
    | none ↦ c
    | some e ↦ record c {
      opposing = c.opposing ++ p.explanation ∷ [];
      breakdown =
          c.breakdown
          ++ record {
            source = some e.source;
            observation_id = e.observation_id;
            value = p.weight;
            penalty = true;
          }
            ∷ [];
    }
  ])

  -- The sum of the contributions, and that of the penalties.
  unfoldable pub sum_of : Bool → List Contribution → ℕ
  sum_of negative [] = 0
  sum_of negative (c ∷ cs) =
      let rest = sum_of negative cs in
      if (negative && c.penalty) || (not negative && not c.penalty) then c.value + rest else rest

  -- The different sources of the positive contributions.
  unfoldable pub sources_of : List Contribution → List ℕ → List ℕ
  sources_of [] seen = seen
  sources_of (c ∷ cs) seen = sources_of cs (elim c.source [
    | none ↦ seen
    | some s ↦ if elem ◌==◌ s seen || c.penalty then seen else s ∷ seen
  ])

  unfoldable pub freshest : List Evidence → ℕ
  freshest [] = 0
  freshest (e ∷ ev) =
      let rest = freshest ev in if ltb rest e.observed_at then e.observed_at else rest

  -- 30 days and 365 days in nanoseconds.
  abbrev pub thirty_days : ℕ
  thirty_days = 2592000000000000

  abbrev pub one_year : ℕ
  one_year = 31536000000000000

  unfoldable pub stale_penalty : ℕ → ℕ → Option ℕ
  stale_penalty now fresh =
      if fresh == 0 || leb (now - fresh) thirty_days
      then none
      else some (min 250000 ((now - fresh) * 250000 / one_year))

  unfoldable pub diversity_bonus : ℕ → ℕ
  diversity_bonus n = if leb 2 n then min 150000 ((n - 1) * 50000) else 0

  -- The total, kept within 0 and 1.
  unfoldable pub final_score : Rule → Candidate → Option ℕ → ℕ
  final_score r c stale =
      let gain =
        sum_of false c.breakdown
        + diversity_bonus c.source_diversity
        + (if r.has_model then 50000 else 0) in
      let loss = sum_of true c.breakdown + elim stale [ none ↦ 0 | some x ↦ x ] in
      min 1000000 (gain - loss)

  abbrev pub stale_entry : Option ℕ → List Contribution
  stale_entry none = []
  stale_entry (some x) =
      record { source = none; observation_id = 0; value = x; penalty = true } ∷ []

  abbrev pub blank : Rule → Candidate
  blank r = record {
    rule_id = r.id;
    score = 0;
    supporting = [];
    opposing = [];
    observation_ids = [];
    source_diversity = 0;
    breakdown = [];
  }

  -- The candidate after the loops, with its sources counted.
  unfoldable pub gathered : Rule → List Evidence → Candidate
  gathered r ev =
      let c = add_negative r.negative ev (add_positive r.positive ev (blank r)) in
      record c { source_diversity = length (sources_of c.breakdown []) }

  -- evaluateRule: the candidate, if all that is required is there and the score is positive.
  unfoldable pub evaluate_rule : ℕ → Rule → List Evidence → Option Candidate
  evaluate_rule now r ev =
      if not (requirements_met r.required ev)
      then none
      else let c = gathered r ev in
        let stale = stale_penalty now (freshest ev) in
        let score = final_score r c stale in
        if ltb 0 score
        then some (record c { score = score; breakdown = c.breakdown ++ stale_entry stale })
        else none
