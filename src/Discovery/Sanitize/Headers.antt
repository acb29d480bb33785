-- ===== src/Discovery/Sanitize/Headers.antt =====
-- internal/observation/sanitize.go: which headers SanitizeHeaders keeps.
use corta_sentry.Prelude.{
  Bool, any, map, to_lower, trim_space, list_eq, ℕ, ◌+◌, ◌≤◌, ◌≡◌, refl, true, false, List, [], ◌∷◌,
  Text, arith, ◌⊎◌, inl, inr, Bool-cases, leb, if◌then◌else◌, All, length,
}
use corta_sentry.Discovery.Sanitize.{
  Tables, Headers, is_secret, clean_values, keep_headers, sanitize_headers,
}

-- The names authorization, proxy-authorization, cookie and set-cookie.
abbrev pub credential_names : List Text
credential_names =
    (b'a' ∷ b'u' ∷ b't' ∷ b'h' ∷ b'o' ∷ b'r' ∷ b'i' ∷ b'z' ∷ b'a' ∷ b't' ∷ b'i' ∷ b'o' ∷ b'n' ∷ [])
    ∷ (b'p' ∷ b'r' ∷ b'o' ∷ b'x' ∷ b'y' ∷ b'-' ∷ b'a' ∷ b'u' ∷ b't' ∷ b'h' ∷ b'o' ∷ b'r' ∷ b'i'
        ∷ b'z' ∷ b'a' ∷ b't' ∷ b'i' ∷ b'o' ∷ b'n' ∷ [])
    ∷ (b'c' ∷ b'o' ∷ b'o' ∷ b'k' ∷ b'i' ∷ b'e' ∷ [])
    ∷ (b's' ∷ b'e' ∷ b't' ∷ b'-' ∷ b'c' ∷ b'o' ∷ b'o' ∷ b'k' ∷ b'i' ∷ b'e' ∷ [])
    ∷ []

-- The name of a header is one of these, in any case and with any spaces around it.
abbrev pub is_credential : Text → Bool
is_credential k = any (list_eq (map to_lower (trim_space k))) credential_names

module _ (u : Tables) (max_headers max_value : ℕ) where
  -- Every header with another name, its values cleaned.
  unfoldable pub open_headers : Headers → Headers
  open_headers [] = []
  open_headers ((k, vs) ∷ hs) =
      let rest = open_headers hs in
      if is_credential k then rest else (k, (clean_values u max_value vs).0) ∷ rest

  abbrev pub IsOpen : Text × List Text → Type 0
  IsOpen h = is_credential h.0 ≡ false

  keep-IsOpen : (n : ℕ) (hs : Headers) → All IsOpen (keep_headers u max_headers max_value n hs).0
  unfolding keep_headers is_secret
  keep-IsOpen n [] = tt
  keep-IsOpen n ((k, vs) ∷ hs) = elim (Bool-cases (is_credential k)) [
    | inl y ↦ rw (y, keep_headers) (keep-IsOpen n hs)
    | inr s ↦ elim (Bool-cases (leb max_headers n)) [
      | inl t ↦ rw (s, t, keep_headers) tt
      | inr f ↦ rw (s, f, keep_headers) (s, keep-IsOpen (n + 1) hs)
    ]
  ]

  keep_bound :
      (n : ℕ) (hs : Headers)
      → (length (keep_headers u max_headers max_value n hs).0 ≡ 0)
        ⊎ (n + length (keep_headers u max_headers max_value n hs).0 ≤ max_headers)
  unfolding keep_headers is_secret
  keep_bound n [] = inl refl
  keep_bound n ((k, vs) ∷ hs) = elim (Bool-cases (is_credential k)) [
    | inl y ↦ rw (y, keep_headers) (keep_bound n hs)
    | inr s ↦ elim (Bool-cases (leb max_headers n)) [
      | inl t ↦ rw (s, t, keep_headers) (inl refl)
      | inr f ↦ elim (keep_bound (n + 1) hs) [
        | inl z ↦ rw (s, f, keep_headers) (inr (ground arith))
        | inr b ↦ rw (s, f, keep_headers) (inr (ground arith))
      ]
    ]
  ]

  keep-open :
      (n : ℕ) (hs : Headers)
      → ((keep_headers u max_headers max_value n hs).1 ≡ true)
        ⊎ ((keep_headers u max_headers max_value n hs).0 ≡ open_headers hs)
  unfolding keep_headers open_headers is_secret
  keep-open n [] = inr refl
  keep-open n ((k, vs) ∷ hs) = elim (Bool-cases (is_credential k)) [
    | inl y ↦ rw (y, keep_headers, open_headers) (keep-open n hs)
    | inr s ↦ elim (Bool-cases (leb max_headers n)) [
      | inl t ↦ rw (s, t, keep_headers) (inl refl)
      | inr f ↦ elim (keep-open (n + 1) hs) [
        | inl z ↦ inl (ground arith)
        | inr e ↦ inr (rw (s, f, e, keep_headers, open_headers) refl)
      ]
    ]
  ]

  -- No header that SanitizeHeaders keeps is named Authorization, Proxy-Authorization, Cookie or
  -- Set-Cookie, in any case and with any spaces around it, in whatever order the map is walked, and
  -- it keeps no more headers than it is allowed to. If it does not report a cut, every header with
  -- another name is kept, with its values cleaned.
  pub sanitize_headers-IsOpen :
      (hs : Headers)
      → let r = sanitize_headers u hs max_headers max_value in
        All IsOpen r.0 × (length r.0 ≤ max_headers) × ((r.1 ≡ true) ⊎ (r.0 ≡ open_headers hs))
  unfolding sanitize_headers
  sanitize_headers-IsOpen hs = (
    keep-IsOpen 0 hs,
    elim (keep_bound 0 hs) [ inl z ↦ omega arith | inr b ↦ omega arith ],
    keep-open 0 hs,
  )
