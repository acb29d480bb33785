-- ===== src/Importer/Sanitized.antt =====
-- internal/importer/importer.go: what sanitizeMap keeps of a record.
use corta_sentry.Prelude.{
  ℕ, ◌+◌, ◌≤◌, ◌≡◌, refl, false, some, [], ◌∷◌, Text, arith, ◌⊎◌, inl, inr, Bool-cases,
  Option-cases, leb, All, length,
}
use corta_sentry.Discovery.Sanitize.{byte_length}
use corta_sentry.Discovery.Sanitize.Bounds.{printable_bounds}
use corta_sentry.Importer.Input.{
  Json, string, number, boolean, null, compound, Fields, Library, bounded,
}
use corta_sentry.Importer.Jsonl.{is_secret_key, kept_value, sanitize_map}

-- A value of a bounded size.
abbrev pub IsBounded : Json → Type 0
IsBounded (string s) = byte_length s ≤ 4099
IsBounded (compound size v) = size ≤ 16384
IsBounded (number n) = Unit
IsBounded (boolean b) = Unit
IsBounded null = Unit

module _ (lib : Library) where
  abbrev pub IsClean : Text × Json → Type 0
  IsClean f = (is_secret_key f.0 ≡ false) × IsBounded f.1

  kept-IsBounded : (v w : Json) → kept_value lib v ≡ some w → IsBounded w
  kept-IsBounded (string s) (string t) e =
      let (a, b, c) = printable_bounds lib.tables s 4096 in
      let q : bounded lib s 4096 ≡ t = cc in rw (← q) (omega (arith, b))
  kept-IsBounded (compound size v) (compound k w) e = ground arith
  kept-IsBounded v (number n) e = tt
  kept-IsBounded v (boolean b) e = tt
  kept-IsBounded v null e = tt
  kept-IsBounded v w e = absurd (ground arith)

  sanitized :
      (n : ℕ) (m : Fields)
      → All IsClean (sanitize_map lib n m)
        × ((length (sanitize_map lib n m) ≡ 0) ⊎ (n + length (sanitize_map lib n m) ≤ 200))
  unfolding sanitize_map
  sanitized n [] = (tt, inl refl)
  sanitized n ((k, v) ∷ m) = elim (Bool-cases (leb 200 n)) [
    | inl y ↦ rw (y, sanitize_map) (tt, inl refl)
    | inr f ↦ elim (Bool-cases (is_secret_key k)) [
      | inl s ↦ rw (f, s, sanitize_map) (sanitized n m)
      | inr o ↦ elim (Option-cases (kept_value lib v)) [
        | inl z ↦
            let (a, b) = sanitized (n + 1) m in
            rw (f, o, z, sanitize_map) (a, elim b [ inl e ↦ inl e | inr h ↦ inr (omega arith) ])
        | inr (w, e) ↦
            let (a, b) = sanitized (n + 1) m in
            rw (f, o, e, sanitize_map)
              (
                ((o, kept-IsBounded v w e), a),
                elim b [ inl z ↦ inr (ground arith) | inr h ↦ inr (ground arith) ],
              )
      ]
    ]
  ]

  -- What sanitizeMap keeps of a record, in whatever order the map is walked, has 200 fields at
  -- most; the key of each contains neither "authorization" nor "cookie" in any case, its text has
  -- at most 4099 bytes, and the JSON of an array or an object at most 16 KiB.
  pub sanitize_map-IsClean :
      (m : Fields) → All IsClean (sanitize_map lib 0 m) × (length (sanitize_map lib 0 m) ≤ 200)
  sanitize_map-IsClean m =
      let (a, b) = sanitized 0 m in (a, elim b [ inl e ↦ omega arith | inr h ↦ omega arith ])
