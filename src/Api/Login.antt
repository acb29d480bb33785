-- ===== src/Api/Login.antt =====
-- internal/api/api.go: login, session and logout, with the limits on logins. A rate limiter is a
-- library's, read at the time of the request; the audit log is a state that may fail to record.
pub mod Audited
use corta_sentry.Prelude.{
  ℕ, Bool, true, false, not, Option, none, some, List, [], ◌∷◌, Result, ok, err, Text, list_eq,
  length, leb, if◌then◌else◌,
}
use corta_sentry.Auth.Tables.{AuthState, Request, login, revoke_session, refresh_csrf, logout}
use corta_sentry.Api.Guard.{HttpRequest, same_origin}

-- rate.NewLimiter and Allow.
pub record Limiters (L : Type 0) : Type 0 where
  pub fresh : L
  pub allow : L → ℕ → Bool × L

-- The audit events of the three handlers.
pub data SessionEvent : Type 0 where
  rate_limited denied success : Text → SessionEvent
  logged_out : SessionEvent

pub data Reply : Type 0 where
  cross_origin too_many bad_request invalid_credentials audit_unavailable unauthorized : Reply
  logged_in refreshed : Text → Reply
  no_content : Reply

pub record LoginState (L A : Type 0) : Type 0 where
  pub rates : List (Text × L)
  pub auth : AuthState
  pub log : A

abbrev pub EventLog : Type 0 → Type 0
EventLog A = SessionEvent → A → Option A

-- remoteIP, on what net.SplitHostPort makes of the address.
unfoldable pub remote_ip : (Text → Option Text) → Text → Text
remote_ip split_host value = elim (split_host value) [ none ↦ value | some host ↦ host ]

module _ {L : Type 0} (limiters : Limiters L) where
  -- The limiter of a key after one call of Allow, in a map that gets one if it is missing.
  unfoldable pub allow_key : Text → ℕ → List (Text × L) → Bool × List (Text × L)
  allow_key key now [] = let r = limiters.allow limiters.fresh now in (r.0, (key, r.1) ∷ [])
  allow_key key now ((k, l) ∷ rates) =
      let rest = allow_key key now rates in
      let r = limiters.allow l now in
      if list_eq k key then (r.0, (k, r.1) ∷ rates) else (rest.0, (k, l) ∷ rest.1)

  -- allowLogin: a full map is emptied first.
  unfoldable pub allow_login : Text → ℕ → List (Text × L) → Bool × List (Text × L)
  unfolding allow_key
  allow_login key now rates = allow_key key now (if leb 4096 (length rates) then [] else rates)

  module _ {A : Type 0} (record_event : EventLog A) where
    abbrev quietly : SessionEvent → A → A
    quietly x log = elim (record_event x log) [ none ↦ log | some log' ↦ log' ]

    -- login, with a session identifier and two random tokens; `token` is the decoded body.
    unfoldable pub handle_login :
        (Text → ℕ)
        → (Text → Option Text)
        → ℕ
        → Text
        → Text
        → ℕ
        → HttpRequest
        → Text
        → Option Text
        → LoginState L A
        → Reply × LoginState L A
    handle_login hash host_of id sess csrf now r remote token st =
        let a = allow_login remote now st.rates in
        let st' = record st { rates = a.1 } in
        if not (same_origin host_of r)
        then (cross_origin, st)
        else if not a.0
        then (too_many, record st' { log = quietly (rate_limited remote) st.log })
        else elim token [
          | none ↦ (bad_request, st')
          | some t ↦
              (let l = login hash id sess csrf now t st.auth in
                elim l.0 [
                  | err x ↦ (
                    invalid_credentials,
                    record st' { auth = l.1; log = quietly (denied remote) st.log },
                  )
                  | ok (s, c) ↦ elim (record_event (success remote) st.log) [
                    | none ↦
                        (audit_unavailable, record st' { auth = revoke_session hash now s l.1 })
                    | some log ↦ (logged_in c, record st' { auth = l.1; log = log })
                  ]
                ])
        ]

    -- session, with a random token.
    unfoldable pub handle_session :
        (Text → ℕ)
        → (Text → Option Text)
        → ℕ
        → Text
        → HttpRequest
        → LoginState L A
        → Reply × LoginState L A
    handle_session hash host_of now csrf r st =
        let f = refresh_csrf hash now csrf r.credentials st.auth in
        if not (same_origin host_of r) then (cross_origin, st) else elim f.0 [
          | err x ↦ (unauthorized, record st { auth = f.1 })
          | ok c ↦ (refreshed c, record st { auth = f.1 })
        ]

    -- logout, after protect.
    unfoldable pub handle_logout :
        (Text → ℕ) → ℕ → HttpRequest → LoginState L A → Reply × LoginState L A
    handle_logout hash now r st =
        let auth = logout hash now r.credentials st.auth in
        elim (record_event logged_out st.log) [
          | none ↦ (audit_unavailable, record st { auth = auth })
          | some log ↦ (no_content, record st { auth = auth; log = log })
        ]
