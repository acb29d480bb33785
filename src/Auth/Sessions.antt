-- ===== src/Auth/Sessions.antt =====
-- internal/auth/auth.go: the life of a browser session, from Login to Logout.
use corta_sentry.Prelude.{
  ℕ, ◌+◌, ◌<◌, ◌≡◌, ◌≢◌, refl, sym, ◌∙◌, true, ◌||◌, not, none, some, List, [], ◌∷◌, ◌++◌, arith,
  Text, ◌==◌, Option-cases, inl, inr, first, delete_where, first-update_where, first-delete_where,
  first-append, first-true, ok,
}
use corta_sentry.Jobs.Stamp.{stamp_less}
use corta_sentry.Auth.Tables.{
  SessionRow, AuthState, Request, session, bearer, after_prefix, is_null, has_session, live_session,
  twelve_hours, verify_token_id, login, bearer_id, cookie_id, authenticate, csrf_matches,
  check_csrf, logout, revoke_session,
}

module _ (hash : Text → ℕ) where
  module _ (now : ℕ) (r : Request) (st : AuthState) (c : Text) (s : SessionRow) where
    cookie_id_found :
        r.cookie ≡ some c
        → first (has_session (hash c)) st.sessions ≡ some s
        → s.revoked_at ≡ none
        → now < s.expires_at
        → cookie_id hash now r st ≡ some s.id
    unfolding cookie_id
    cookie_id_found e f u l = ground arith

    pub csrf_found :
        r.cookie ≡ some c
        → first (live_session (hash c)) st.sessions ≡ some s
        → r.csrf_token ≢ []
        → csrf_matches hash r st ≡ (hash r.csrf_token == s.csrf_hash)
    unfolding csrf_matches
    csrf_found e f n =
        elim r.csrf_token
            as (λ x.
              x ≢ []
              → x ≡ r.csrf_token
              → csrf_matches hash r st ≡ (hash r.csrf_token == s.csrf_hash)) [
                | [] ↦ λ z q. absurd (z refl)
                | d ∷ t ↦ λ z q. ground arith
              ]
          n refl

  by_cookie :
      (now : ℕ) (r : Request) (st : AuthState) {i : ℕ}
      → after_prefix bearer r.authorization ≡ none
      → cookie_id hash now r st ≡ some i
      → authenticate hash now r st ≡ some (session i)
  unfolding authenticate bearer_id
  by_cookie now r st b h = ground arith

  pub session_of_parts :
      (now : ℕ) (r : Request) (st : AuthState) {i : ℕ}
      → bearer_id hash r st ≡ none
      → cookie_id hash now r st ≡ some i
      → authenticate hash now r st ≡ some (session i)
  unfolding authenticate
  session_of_parts now r st b h = ground arith

  pub by_session :
      (now : ℕ) (r : Request) (st : AuthState) {i : ℕ}
      → authenticate hash now r st ≡ some (session i)
      → check_csrf hash now r st ≡ csrf_matches hash r st
  unfolding check_csrf
  by_session now r st h = ground arith

  no_live :
      (h : ℕ) (rows : List SessionRow)
      → first (has_session h) rows ≡ none
      → first (live_session h) rows ≡ none
  unfolding first
  no_live h [] n = refl
  no_live h (s ∷ rows) n = ground (arith, no_live h rows)

  module _ (id : ℕ) (sess csrf : Text) (now : ℕ) (t : Text) (st : AuthState) where
    abbrev created : SessionRow
    created = record {
      id = id;
      token_hash = hash sess;
      csrf_hash = hash csrf;
      created_at = now;
      expires_at = now + twelve_hours;
      revoked_at = none;
    }

    abbrev kept : List SessionRow
    kept = delete_where (λ s. stamp_less s.expires_at now || not (is_null s.revoked_at)) st.sessions

    login-sessions :
        {i : ℕ}
        → verify_token_id hash t st ≡ some i
        → (login hash id sess csrf now t st).1.sessions ≡ kept ++ created ∷ []
    unfolding login
    login-sessions e = rw (e, login)

    login_verified :
        (login hash id sess csrf now t st).0 ≡ ok (sess, csrf)
        → (i : ℕ) × (verify_token_id hash t st ≡ some i)
    unfolding login
    login_verified h = elim (Option-cases (verify_token_id hash t st)) [
      | inl n ↦ absurd (ground arith)
      | inr y ↦ y
    ]

    -- After a login, with a session token whose hash no session had and a CSRF token that is not
    -- empty, a request with that cookie and no bearer token is authenticated as the session for
    -- twelve hours, and passes CheckCSRF with that CSRF token.
    pub login_lem :
        (login hash id sess csrf now t st).0 ≡ ok (sess, csrf)
        → first (has_session (hash sess)) st.sessions ≡ none
        → csrf ≢ []
        → (now' : ℕ) (r : Request) → now' < now + twelve_hours
        → after_prefix bearer r.authorization ≡ none
        → r.cookie ≡ some sess
        → r.csrf_token ≡ csrf
        → let st' = (login hash id sess csrf now t st).1 in
          (authenticate hash now' r st' ≡ some (session id)) × (check_csrf hash now' r st' ≡ true)
    login_lem h free ne now' r l b c k =
        let st' = (login hash id sess csrf now t st).1 in
        let (i, v) = login_verified h in
        let rows = login-sessions v in
        let gone =
          first-delete_where (has_session (hash sess))
            (λ (s : SessionRow). stamp_less s.expires_at now || not (is_null s.revoked_at))
            st.sessions free in
        let at : first (has_session (hash sess)) st'.sessions ≡ some created =
          rw rows (first-append (has_session (hash sess)) kept created gone (ground arith)) in
        let live : first (live_session (hash sess)) st'.sessions ≡ some created = rw rows (
          first-append (live_session (hash sess)) kept created (no_live (hash sess) kept gone)
            (ground arith)) in
        let a = by_cookie now' r st' b (cookie_id_found now' r st' sess created c at refl l) in
        (
          a,
          by_session now' r st' a
              ∙ csrf_found now' r st' sess created c live (λ z. ne (sym k ∙ z))
              ∙ rw k (ground arith),
        )

  pub revoked_cookie :
      (c : Text) (now now' : ℕ) (st : AuthState) (r : Request)
      → r.cookie ≡ some c
      → cookie_id hash now' r (revoke_session hash now c st) ≡ none
  unfolding cookie_id revoke_session
  revoked_cookie c now now' st r e =
      let q =
        first-update_where (has_session (hash c)) (has_session (hash c))
          (λ (s : SessionRow). record s { revoked_at = some now }) st.sessions (λ s. refl) in
      elim (Option-cases (first (has_session (hash c)) st.sessions)) [
        | inl n ↦ ground (arith, q)
        | inr (s, f) ↦ ground (arith, q, first-true (has_session (hash c)) st.sessions f)
      ]

  pub session_cookie :
      (now : ℕ) (r : Request) (st : AuthState) (i : ℕ)
      → authenticate hash now r st ≡ some (session i)
      → (bearer_id hash r st ≡ none) × (cookie_id hash now r st ≡ some i)
  unfolding authenticate
  session_cookie now r st i h = elim (Option-cases (bearer_id hash r st)) [
    | inr (j, e) ↦ absurd (ground arith)
    | inl n ↦ elim (Option-cases (cookie_id hash now r st)) [
      | inl m ↦ absurd (ground arith)
      | inr (j, e) ↦ (n, ground arith)
    ]
  ]

  logged_out :
      (now now' : ℕ) (st : AuthState) (r r' : Request)
      → r'.cookie ≡ r.cookie
      → cookie_id hash now' r' (logout hash now r st) ≡ none
  unfolding logout cookie_id
  logged_out now now' st r r' e = elim (Option-cases r.cookie) [
    | inl n ↦ ground arith
    | inr (c, q) ↦ rw (q, logout) (revoked_cookie c now now' st r' (e ∙ q))
  ]

  -- After a logout, a request with the same cookie is not authenticated by any session.
  pub logout_lem :
      (now now' : ℕ) (st : AuthState) (r r' : Request) (i : ℕ)
      → r'.cookie ≡ r.cookie
      → authenticate hash now' r' (logout hash now r st) ≢ some (session i)
  logout_lem now now' st r r' i e h =
      let (b, c) = session_cookie now' r' (logout hash now r st) i h in
      let n = logged_out now now' st r r' e in cc
