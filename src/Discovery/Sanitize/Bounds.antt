-- ===== src/Discovery/Sanitize/Bounds.antt =====
-- internal/observation/sanitize.go: what Printable can answer.
use corta_sentry.Prelude.{
  ℕ, ◌+◌, ◌≤◌, ◌≡◌, refl, true, ◌&&◌, [], ◌∷◌, ◌++◌, Text, arith, ◌⊎◌, inl, inr, Bool-cases, leb,
  All, All-append,
}
use corta_sentry.Discovery.Sanitize.{
  Tables, rune_width, byte_length, is_kept, written, trim_front, trim_back, trim, is_end, scan,
  printable,
}

rune_width_bound : (c : ℕ) → rune_width c ≤ 4
unfolding rune_width
rune_width_bound c = ground arith

byte_length-append : (s t : Text) → byte_length (s ++ t) ≡ byte_length s + byte_length t
unfolding byte_length
byte_length-append [] t = ground arith
byte_length-append (c ∷ s) t = ground (arith, byte_length-append s t)

module _ (u : Tables) where
  written_bound : (c : ℕ) → byte_length (written u c) ≤ 4
  unfolding written byte_length
  written_bound c = ground (arith, rune_width_bound c, rune_width_bound 32)

  -- The whole text as the loop would write it with no limit.
  unfoldable pub cleaned : Text → Text
  cleaned [] = []
  cleaned (c ∷ s) = written u c ++ cleaned s

  abbrev pub Clean : ℕ → Type 0
  Clean c = (is_kept u c ≡ true) ⊎ (c ≡ 32)

  written-Clean : (c : ℕ) → All Clean (written u c)
  unfolding written
  written-Clean c = elim (Bool-cases (is_kept u c)) [
    | inl k ↦ rw k (inl k, tt)
    | inr n ↦ elim (Bool-cases (u.is_blank c)) [
      | inl b ↦ rw (n, b) (inr refl, tt)
      | inr m ↦ rw (n, m) tt
    ]
  ]

  scan-Clean : (max used : ℕ) (s : Text) → All Clean (scan u max used s).0
  unfolding scan
  scan-Clean max used [] = tt
  scan-Clean max used (c ∷ s) =
      let n = used + byte_length (written u c) in
      elim (Bool-cases (leb max used)) [
        | inl t ↦ rw t tt
        | inr f ↦ rw f (
            All-append Clean (written u c) (scan u max n s).0 (written-Clean c)
              (scan-Clean max n s))
      ]

  scan_bound :
      (max used : ℕ) (s : Text)
      → (byte_length (scan u max used s).0 ≡ 0)
        ⊎ (used + byte_length (scan u max used s).0 ≤ max + 3)
  unfolding scan byte_length
  scan_bound max used [] = inl refl
  scan_bound max used (c ∷ s) =
      let n = used + byte_length (written u c) in
      let b = written_bound c in
      let a = byte_length-append (written u c) (scan u max n s).0 in
      elim (Bool-cases (leb max used)) [
        | inl t ↦ rw t (inl refl)
        | inr f ↦ elim (scan_bound max n s) [
          | inl z ↦ rw f (inr (ground arith))
          | inr h ↦ rw f (inr (ground arith))
        ]
      ]

  scan-cleaned :
      (max used : ℕ) (s : Text)
      → ((scan u max used s).1 ≡ true) ⊎ ((scan u max used s).0 ≡ cleaned s)
  unfolding scan cleaned
  scan-cleaned max used [] = inr refl
  scan-cleaned max used (c ∷ s) =
      let n = used + byte_length (written u c) in
      elim (Bool-cases (leb max used)) [
        | inl t ↦ rw t (inl refl)
        | inr f ↦ elim (scan-cleaned max n s) [
          | inl z ↦ rw f (inl z)
          | inr h ↦ rw f (inr (rw h refl))
        ]
      ]

  trim_front_bound : (s : Text) → byte_length (trim_front u s) ≤ byte_length s
  unfolding trim_front byte_length
  trim_front_bound [] = omega arith
  trim_front_bound (c ∷ s) = ground (arith, trim_front_bound s)

  trim_back_bound : (s : Text) → byte_length (trim_back u s) ≤ byte_length s
  unfolding trim_back byte_length
  trim_back_bound [] = omega arith
  trim_back_bound (c ∷ s) = ground (arith, trim_back_bound s)

  trim_front-Clean : (s : Text) → All Clean s → All Clean (trim_front u s)
  unfolding trim_front
  trim_front-Clean [] h = tt
  trim_front-Clean (c ∷ s) h = elim (Bool-cases (u.is_blank c)) [
    | inl b ↦ rw (b, trim_front) (trim_front-Clean s h.1)
    | inr n ↦ rw (n, trim_front) h
  ]

  trim_back-Clean : (s : Text) → All Clean s → All Clean (trim_back u s)
  unfolding trim_back
  trim_back-Clean [] h = tt
  trim_back-Clean (c ∷ s) h = elim (Bool-cases (u.is_blank c && is_end (trim_back u s))) [
    | inl b ↦ rw (b, trim_back) tt
    | inr n ↦ rw (n, trim_back) (h.0, trim_back-Clean s h.1)
  ]

  -- What Printable answers holds printable code points and spaces only, and at most three bytes
  -- more than its limit. If it does not report a cut, it is the whole text, cleaned and trimmed.
  pub printable_bounds :
      (s : Text) (max : ℕ)
      → let r = printable u s max in
        All Clean r.0 × (byte_length r.0 ≤ max + 3) × ((r.1 ≡ true) ⊎ (r.0 ≡ trim u (cleaned s)))
  unfolding printable
  printable_bounds s max =
      let w = (scan u max 0 s).0 in
      (
        trim_back-Clean (trim_front u w) (trim_front-Clean w (scan-Clean max 0 s)),
        elim (scan_bound max 0 s) [
          | inl z ↦ omega (arith, trim_back_bound (trim_front u w), trim_front_bound w)
          | inr h ↦ omega (arith, trim_back_bound (trim_front u w), trim_front_bound w)
        ],
        elim (scan-cleaned max 0 s) [ inl t ↦ inl t | inr h ↦ inr (rw h refl) ],
      )
