-- ===== src/Auth/Refresh.antt =====
-- internal/auth/auth.go: RefreshCSRF.
use corta_sentry.Prelude.{
  ℕ, ◌≡◌, ◌≢◌, refl, ◌∙◌, none, some, List, [], arith, Text, ◌==◌, Bool-cases, Option-cases, inl,
  inr, first, update_where, first-update_where, first-true, ok,
}
use corta_sentry.Auth.Tables.{
  SessionRow, AuthState, Request, token, session, has_session, live_session, verify_token_id,
  bearer_id, cookie_id, authenticate, check_csrf, refresh_csrf,
}
use corta_sentry.Auth.Sessions.{session_of_parts, by_session, csrf_found, session_cookie}

module _ (hash : Text → ℕ) (now : ℕ) (csrf : Text) (r : Request) (st : AuthState) where
  abbrev set_csrf : SessionRow → SessionRow
  set_csrf s = record s { csrf_hash = hash csrf }

  refresh_inverse :
      (refresh_csrf hash now csrf r st).0 ≡ ok csrf
      → (i : ℕ) × (c : Text) × (s : SessionRow) × (authenticate hash now r st ≡ some (session i))
        × (r.cookie ≡ some c)
        × (first (live_session (hash c)) st.sessions ≡ some s)
        × ((refresh_csrf hash now csrf r st).1
            ≡ record st { sessions = update_where (live_session (hash c)) set_csrf st.sessions })
  unfolding refresh_csrf
  refresh_inverse h = elim (Option-cases (authenticate hash now r st)) [
    | inl n ↦ absurd (ground arith)
    | inr (token i, e) ↦ absurd (ground arith)
    | inr (session i, e) ↦ elim (Option-cases r.cookie) [
      | inl n ↦ absurd (ground arith)
      | inr (c, q) ↦ elim (Option-cases (first (live_session (hash c)) st.sessions)) [
        | inl n ↦ absurd (ground arith)
        | inr (s, f) ↦ (i, c, s, e, q, f, ground arith)
      ]
    ]
  ]

  -- The refresh leaves the request authenticated as it was.
  refreshed_cookie :
      (c : Text) (x : Text)
      → r.cookie ≡ some c
      → cookie_id hash now
          (record r { csrf_token = x })
          (record st { sessions = update_where (live_session (hash c)) set_csrf st.sessions })
        ≡ cookie_id hash now r st
  unfolding cookie_id
  refreshed_cookie c x q =
      let u =
        first-update_where (has_session (hash c)) (live_session (hash c)) set_csrf st.sessions
          (λ s. refl) in
      elim (Option-cases (first (has_session (hash c)) st.sessions)) [
        | inl n ↦ ground (arith, u)
        | inr (s, f) ↦ elim (Bool-cases (live_session (hash c) s)) [
          | inl y ↦ ground (arith, u)
          | inr z ↦ ground (arith, u)
        ]
      ]

  same_bearer :
      (x : Text) (rows : List SessionRow)
      → bearer_id hash (record r { csrf_token = x }) (record st { sessions = rows })
        ≡ bearer_id hash r st
  unfolding bearer_id verify_token_id
  same_bearer x rows = refl

  refreshed_authenticate :
      (i : ℕ) (c : Text) (x : Text)
      → r.cookie ≡ some c
      → bearer_id hash r st ≡ none
      → cookie_id hash now r st ≡ some i
      → authenticate hash now
          (record r { csrf_token = x })
          (record st { sessions = update_where (live_session (hash c)) set_csrf st.sessions })
        ≡ some (session i)
  refreshed_authenticate i c x q b k =
      let rows = update_where (live_session (hash c)) set_csrf st.sessions in
      session_of_parts hash now (record r { csrf_token = x }) (record st { sessions = rows })
        (same_bearer x rows ∙ b) (refreshed_cookie c x q ∙ k)

  refreshed_row :
      (c : Text) (s : SessionRow)
      → first (live_session (hash c)) st.sessions ≡ some s
      → first (live_session (hash c)) (update_where (live_session (hash c)) set_csrf st.sessions)
        ≡ some (set_csrf s)
  refreshed_row c s f =
      let u =
        first-update_where (live_session (hash c)) (live_session (hash c)) set_csrf st.sessions
          (λ s. refl) in
      let l = first-true (live_session (hash c)) st.sessions f in rw (u, f, l) refl

  -- After RefreshCSRF, a request of the same session with a CSRF token that is not empty passes
  -- CheckCSRF exactly if its token hashes as the new one does.
  pub refresh_csrf_lem :
      (refresh_csrf hash now csrf r st).0 ≡ ok csrf
      → (x : Text) → x ≢ []
      → check_csrf hash now (record r { csrf_token = x }) (refresh_csrf hash now csrf r st).1
        ≡ (hash x == hash csrf)
  refresh_csrf_lem h x ne =
      let (i, c, s, a, q, f, after) = refresh_inverse h in
      let (b, k) = session_cookie hash now r st i a in
      let rows = update_where (live_session (hash c)) set_csrf st.sessions in
      let st' : AuthState = record st { sessions = rows } in
      let r' : Request = record r { csrf_token = x } in
      let a' : authenticate hash now r' st' ≡ some (session i) =
        refreshed_authenticate i c x q b k in
      rw after (
        by_session hash now r' st' a'
        ∙ csrf_found hash now r' st' c (set_csrf s) q (refreshed_row c s f) ne)
