-- ===== src/Importer/Accepted.antt =====
-- internal/importer/importer.go: what the sink is given of an input whose records are all good.
use corta_sentry.Prelude.{
  ℕ, ◌+◌, ◌≡◌, refl, subst, ◌∙◌, ap, Bool, true, false, not, Option, none, some, List, [], ◌∷◌,
  arith, Option-cases, Bool-cases, inl, inr, if◌then◌else◌, length, Result, ok, err, ltb,
}
use corta_sentry.Scope.Address.{Addr}
use corta_sentry.Records.Observations.{Observation, Source}
use corta_sentry.Importer.Input.{
  Sink, Fields, ImportError, too_large, unreadable, Kind, Library, give, max_import_bytes,
}
use corta_sentry.Importer.Jsonl.{
  jsonl_lines, jsonl, jsonl_observation, first_string, target_keys, is_nuclei, source_of,
}

-- The sink takes some observations one after the other.
module _ {S : Type 0} (sink : Sink S) where
  unfoldable pub feed : List Observation → S → Option S
  feed [] st = some st
  feed (o ∷ os) st = if (sink o st).0 then feed os (sink o st).1 else none

  feed_head :
      (o : Observation) (os : List Observation) (st st' : S)
      → feed (o ∷ os) st ≡ some st'
      → ((sink o st).0 ≡ true) × (feed os (sink o st).1 ≡ some st')
  unfolding feed
  feed_head o os st st' h = elim (Bool-cases (sink o st).0) [
    | inl y ↦ (y, rw (y, feed) at h)
    | inr n ↦ absurd (ground arith)
  ]

abbrev consed : Observation → Option (List Observation) → Option (List Observation)
consed o none = none
consed o (some os) = some (o ∷ os)

-- How an input ends whose lines were all taken.
abbrev pub ending : Bool → ℕ → Result ImportError (Unit {0})
ending readable bytes =
    if not readable
    then err unreadable
    else if ltb max_import_bytes bytes
    then err too_large
    else ok tt

module _ (lib : Library) (now : ℕ) (kind : Kind) (source : Source) where
  -- The observations that the lines stand for, if each line is good: a JSON object that names an
  -- address, or any other object in an import from nuclei.
  unfoldable pub jsonl_records : List (ℕ × Option Fields) → Option (List Observation)
  jsonl_records [] = some []
  jsonl_records ((digest, line) ∷ ls) =
      let rest = jsonl_records ls in
      elim line [
        | none ↦ none
        | some raw ↦ elim (lib.net.parse_addr (first_string raw target_keys)) [
          | none ↦ if is_nuclei kind then rest else none
          | some a ↦ consed (jsonl_observation lib now kind source digest a raw) rest
        ]
      ]

  module _ {S : Type 0} (sink : Sink S) (alive : ℕ → Bool) (readable : Bool) (bytes : ℕ)
      (live : (n : ℕ) → alive n ≡ true) where
    jsonl_lines_step :
        (digest : ℕ) (raw : Fields) (ls : List (ℕ × Option Fields)) (count : ℕ) (st : S) (a : Addr)
        → lib.net.parse_addr (first_string raw target_keys) ≡ some a
        → let o = jsonl_observation lib now kind source digest a raw in
          (sink o st).0 ≡ true
          → jsonl_lines lib sink false now kind source alive readable bytes
              ((digest, some raw) ∷ ls)
              count
              st
            ≡ jsonl_lines lib sink false now kind source alive readable bytes ls
                (count + 1)
                (sink o st).1
    unfolding jsonl_lines give
    jsonl_lines_step digest raw ls count st a e t = rw (live count, e, t, jsonl_lines) refl

    -- The same for the loop, from any count.
    jsonl_lines-ending :
        (ls : List (ℕ × Option Fields)) (os : List Observation) (count : ℕ) (st st' : S)
        → jsonl_records ls ≡ some os
        → feed sink os st ≡ some st'
        → jsonl_lines lib sink false now kind source alive readable bytes ls count st
          ≡ (ending readable bytes, count + length os, st')
    unfolding jsonl_lines jsonl_records feed give
    jsonl_lines-ending [] [] count st st' r f = let e : st ≡ st' = cc in rw (← e) (ground arith)
    jsonl_lines-ending [] (o ∷ os) count st st' r f = cc
    jsonl_lines-ending ((digest, none) ∷ ls) os count st st' r f = cc
    jsonl_lines-ending ((digest, some raw) ∷ ls) os count st st' r f =
        elim (Option-cases (lib.net.parse_addr (first_string raw target_keys))) [
          | inl n ↦ ground (arith, live count, jsonl_lines-ending ls os count st st')
          | inr (a, e) ↦ elim (Option-cases (jsonl_records ls)) [
            | inl z ↦ absurd (ground arith)
            | inr (rest, h) ↦
                let o = jsonl_observation lib now kind source digest a raw in
                let q : os ≡ o ∷ rest = ground arith in
                let g = subst (λ (l : List Observation). feed sink l st ≡ some st') q f in
                let (t, k) = feed_head sink o rest st st' g in
                let ih = jsonl_lines-ending ls rest (count + 1) (sink o st).1 st' h k in
                let n : count + 1 + length rest ≡ count + length os = rw q (omega arith) in
                jsonl_lines_step digest raw ls count st a e t
                ∙ ih
                ∙ ap (λ (m : ℕ). (ending readable bytes, m, st')) n
          ]
        ]

  -- If the type of an import is known, each of its lines is good, the context stays alive and the
  -- sink takes every observation, the sink has been given exactly the observations of the lines, in
  -- their order, and the count is their number. That is so too where the import fails in the end,
  -- because the input could not be read to its end or exceeds 64 MiB.
  pub jsonl-ending :
      {S : Type 0} (sink : Sink S) (alive : ℕ → Bool) (readable : Bool) (bytes : ℕ)
      (ls : List (ℕ × Option Fields)) (os : List Observation) (st st' : S)
      → ((n : ℕ) → alive n ≡ true)
      → source_of kind ≡ some source
      → jsonl_records ls ≡ some os
      → feed sink os st ≡ some st'
      → jsonl lib sink false now kind alive readable bytes ls st
        ≡ (ending readable bytes, length os, st')
  unfolding jsonl
  jsonl-ending sink alive readable bytes ls os st st' live known r f =
      rw (known, jsonl)
        (jsonl_lines-ending sink alive readable bytes live ls os 0 st st' r f
          ∙ ap (λ (m : ℕ). (ending readable bytes, m, st')) (omega arith))
