-- ===== src/Auth/Requests.antt =====
-- internal/auth/auth.go: what it takes for a request to be authenticated and to pass CheckCSRF.
use corta_sentry.Prelude.{
  ℕ, ◌≤◌, ◌<◌, ◌≡◌, ◌≢◌, refl, true, Option, none, some, [], length, arith, Text, Option-cases, inl,
  inr, ◌⊎◌, Memᴰ, first, first-true, first→mem,
}
use corta_sentry.Auth.Tables.{
  TokenRow, SessionRow, AuthState, Request, Principal, token, session, bearer, after_prefix,
  accepts, has_session, live_session, is_null, verify_token_id, bearer_id, cookie_id, authenticate,
  check_csrf, csrf_matches,
}

module _ (hash : Text → ℕ) where
  -- The request carries a token, of a proper length, that has an unrevoked row.
  pub record IsTokenOf (r : Request) (st : AuthState) (i : ℕ) : Type 0 where
    pub text : Text
    pub row : TokenRow
    pub sent : after_prefix bearer r.authorization ≡ some text
    pub long : 32 ≤ length text
    pub short : length text ≤ 256
    pub stored : Memᴰ row st.tokens
    pub matches : hash text ≡ row.token_hash
    pub unrevoked : row.revoked_at ≡ none
    pub named : row.id ≡ i

  -- The request has the cookie of an unrevoked session that has not expired.
  pub record IsSessionOf (now : ℕ) (r : Request) (st : AuthState) (i : ℕ) : Type 0 where
    pub text : Text
    pub row : SessionRow
    pub sent : r.cookie ≡ some text
    pub stored : Memᴰ row st.sessions
    pub matches : row.token_hash ≡ hash text
    pub unrevoked : row.revoked_at ≡ none
    pub current : now < row.expires_at
    pub named : row.id ≡ i

  accepts-parts :
      (h : ℕ) (row : TokenRow)
      → accepts h row ≡ true
      → (row.revoked_at ≡ none) × (h ≡ row.token_hash)
  accepts-parts h row a = elim (Option-cases row.revoked_at) [
    | inl n ↦ (n, ground arith)
    | inr (x, e) ↦ absurd (ground arith)
  ]

  null_none : (o : Option ℕ) → is_null o ≡ true → o ≡ none
  null_none none h = refl
  null_none (some x) h = cc

  verify_inverse :
      (t : Text) (st : AuthState) (i : ℕ)
      → verify_token_id hash t st ≡ some i
      → (row : TokenRow) × (first (accepts (hash t)) st.tokens ≡ some row)
        × (row.id ≡ i)
        × (32 ≤ length t)
        × (length t ≤ 256)
  unfolding verify_token_id
  verify_inverse t st i h = elim (Option-cases (first (accepts (hash t)) st.tokens)) [
    | inl n ↦ absurd (ground arith)
    | inr (row, e) ↦ (row, e, ground arith, ground arith, ground arith)
  ]

  pub bearer_id-IsTokenOf :
      (r : Request) (st : AuthState) (i : ℕ) → bearer_id hash r st ≡ some i → IsTokenOf r st i
  unfolding bearer_id
  bearer_id-IsTokenOf r st i h = elim (Option-cases (after_prefix bearer r.authorization)) [
    | inl n ↦ absurd (ground arith)
    | inr (t, e) ↦
        let (row, f, named, lo, hi) = verify_inverse t st i (ground arith) in
        let (u, q) = accepts-parts (hash t) row (first-true (accepts (hash t)) st.tokens f) in
        record {
          text = t;
          row = row;
          sent = e;
          long = lo;
          short = hi;
          stored = first→mem (accepts (hash t)) st.tokens f;
          matches = q;
          unrevoked = u;
          named = named;
        }
  ]

  pub cookie_id-IsSessionOf :
      (now : ℕ) (r : Request) (st : AuthState) (i : ℕ)
      → cookie_id hash now r st ≡ some i
      → IsSessionOf now r st i
  unfolding cookie_id
  cookie_id-IsSessionOf now r st i h = elim (Option-cases r.cookie) [
    | inl n ↦ absurd (ground arith)
    | inr (c, e) ↦ elim (Option-cases (first (has_session (hash c)) st.sessions)) [
      | inl n ↦ absurd (ground arith)
      | inr (row, f) ↦
          let k : has_session (hash c) row ≡ true =
            first-true (has_session (hash c)) st.sessions f in
          record {
            text = c;
            row = row;
            sent = e;
            stored = first→mem (has_session (hash c)) st.sessions f;
            matches = ground arith;
            unrevoked = null_none row.revoked_at (ground arith);
            current = ground arith;
            named = ground arith;
          }
    ]
  ]

  -- The principal of an authenticated request is that of an unrevoked token of 32 to 256 bytes that
  -- it carries, or that of an unrevoked session that has not expired and whose cookie it has.
  pub authenticate_lem :
      (now : ℕ) (r : Request) (st : AuthState) (p : Principal)
      → authenticate hash now r st ≡ some p
      → ((i : ℕ) × (p ≡ token i) × IsTokenOf r st i)
        ⊎ ((i : ℕ) × (p ≡ session i) × IsSessionOf now r st i)
  unfolding authenticate
  authenticate_lem now r st p h = elim (Option-cases (bearer_id hash r st)) [
    | inr (i, e) ↦ inl (i, ground arith, bearer_id-IsTokenOf r st i e)
    | inl n ↦ elim (Option-cases (cookie_id hash now r st)) [
      | inl m ↦ absurd (ground arith)
      | inr (i, e) ↦ inr (i, ground arith, cookie_id-IsSessionOf now r st i e)
    ]
  ]

  csrf_inverse :
      (r : Request) (st : AuthState)
      → csrf_matches hash r st ≡ true
      → (c : Text) × (row : SessionRow) × (r.cookie ≡ some c)
        × Memᴰ row st.sessions
        × (row.token_hash ≡ hash c)
        × (row.csrf_hash ≡ hash r.csrf_token)
        × (r.csrf_token ≢ [])
  unfolding csrf_matches
  csrf_inverse r st h = elim (Option-cases r.cookie) [
    | inl n ↦ absurd (ground arith)
    | inr (c, e) ↦ elim (Option-cases (first (live_session (hash c)) st.sessions)) [
      | inl n ↦ absurd (ground arith)
      | inr (row, f) ↦
          let k : live_session (hash c) row ≡ true =
            first-true (live_session (hash c)) st.sessions f in
          (
            c,
            row,
            e,
            first→mem (live_session (hash c)) st.sessions f,
            ground arith,
            ground arith,
            λ z. absurd (ground arith),
          )
    ]
  ]

  -- A request that passes CheckCSRF is authenticated by a token it carries, or by a session, and
  -- then it sends a CSRF token that is not empty and hashes as that of a session of its cookie.
  pub check_csrf_lem :
      (now : ℕ) (r : Request) (st : AuthState)
      → check_csrf hash now r st ≡ true
      → ((i : ℕ) × IsTokenOf r st i)
        ⊎ ((i : ℕ) × IsSessionOf now r st i
            × ((c : Text) × (row : SessionRow) × (r.cookie ≡ some c)
                × Memᴰ row st.sessions
                × (row.token_hash ≡ hash c)
                × (row.csrf_hash ≡ hash r.csrf_token)
                × (r.csrf_token ≢ [])))
  unfolding check_csrf
  check_csrf_lem now r st h = elim (Option-cases (authenticate hash now r st)) [
    | inl n ↦ absurd (ground arith)
    | inr (p, e) ↦ elim (authenticate_lem now r st p e) [
      | inl (i, q, t) ↦ inl (i, t)
      | inr (i, q, s) ↦ inr (i, s, csrf_inverse r st (ground arith))
    ]
  ]
