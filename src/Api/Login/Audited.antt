-- ===== src/Api/Login/Audited.antt =====
-- internal/api/api.go: a login that is not on record opens no session.
use corta_sentry.Prelude.{
  Bool, false, ℕ, ◌≡◌, refl, true, Option, none, some, ok, err, Text, Bool-cases, Option-cases, inl,
  inr, ◌⊎◌, first,
}
use corta_sentry.Auth.Tables.{
  AuthError, invalid_credentials, AuthState, Request, has_session, cookie_id, login,
  verify_token_id,
}
use corta_sentry.Auth.Sessions.{revoked_cookie}
use corta_sentry.Api.Guard.{HttpRequest, same_origin}
use corta_sentry.Api.Login.{
  Limiters, EventLog, LoginState, Reply, logged_in, success, allow_login, handle_login,
}

abbrev pub is_success : Reply → Bool
is_success (logged_in csrf) = true
is_success _ = false

module _ (hash : Text → ℕ) (id : ℕ) (sess csrf : Text) (now : ℕ) where
  unknown_cookie :
      (now' : ℕ) (q : Request) (st : AuthState)
      → first (has_session (hash sess)) st.sessions ≡ none
      → q.cookie ≡ some sess
      → cookie_id hash now' q st ≡ none
  unfolding cookie_id
  unknown_cookie now' q st free e = rw (e, cookie_id) (rw free refl)

  login_answer :
      (t : Text) (st : AuthState)
      → ((login hash id sess csrf now t st).0 ≡ ok (sess, csrf))
        ⊎ ((x : AuthError) × ((login hash id sess csrf now t st).0 ≡ err x)
            × ((login hash id sess csrf now t st).1 ≡ st))
  unfolding login
  login_answer t st = elim (Option-cases (verify_token_id hash t st)) [
    | inl n ↦ inr (invalid_credentials, rw (n, login) refl, rw (n, login) refl)
    | inr (i, e) ↦ inl (rw (e, login) refl)
  ]

  module _ {L A : Type 0} (limiters : Limiters L) (record_event : EventLog A)
      (host_of : Text → Option Text) (r : HttpRequest) (remote : Text) (st : LoginState L A)
      (free : first (has_session (hash sess)) st.auth.sessions ≡ none) where
    abbrev pub Outcome : Request → ℕ → Reply × LoginState L A → Type 0
    Outcome q now' o =
        ((o.0 ≡ logged_in csrf)
          × (record_event (success remote) st.log ≡ some o.1.log)
          × (same_origin host_of r ≡ true))
        ⊎ ((is_success o.0 ≡ false) × (cookie_id hash now' q o.1.auth ≡ none))

    -- Where no session had the hash of the new session's token, the login handler answers that the
    -- login succeeded only if the origin is allowed and the success is on record in the audit log;
    -- in every other case, that of a failing audit included, it does not answer success and the
    -- token of the session authenticates no request as a session afterwards.
    pub handle_login-Outcome :
        (token : Option Text) (now' : ℕ) (q : Request)
        → q.cookie ≡ some sess
        → Outcome q now'
            (handle_login limiters record_event hash host_of id sess csrf now r remote token st)
    unfolding handle_login
    handle_login-Outcome token now' q e =
        let a = allow_login limiters remote now st.rates in
        elim (Bool-cases (same_origin host_of r)) [
          | inr n ↦ rw n (inr (refl, unknown_cookie now' q st.auth free e))
          | inl o ↦ elim (Bool-cases a.0) [
            | inr n ↦ rw (o, n) (inr (refl, unknown_cookie now' q st.auth free e))
            | inl y ↦ elim (Option-cases token) [
              | inl z ↦ rw (o, y, z) (inr (refl, unknown_cookie now' q st.auth free e))
              | inr (t, k) ↦ elim (login_answer t st.auth) [
                | inr (x, f, g) ↦
                    rw (o, y, k, f, g) (inr (refl, unknown_cookie now' q st.auth free e))
                | inl f ↦ elim (Option-cases (record_event (success remote) st.log)) [
                  | inl m ↦
                      rw (o, y, k, f, m)
                        (inr (
                          refl,
                          revoked_cookie hash sess now now'
                              (login hash id sess csrf now t st.auth).1 q e,
                        ))
                  | inr (log, m) ↦ rw (o, y, k, f, m) (inl (refl, refl, refl))
                ]
              ]
            ]
          ]
        ]
