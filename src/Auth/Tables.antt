-- ===== src/Auth/Tables.antt =====
-- internal/auth/auth.go: the tables auth_tokens and sessions, and the operations on them. The hash,
-- random tokens, identifiers, the clock and whether the secret file was written are arguments.
use corta_sentry.Prelude.{
  ℕ, ◌+◌, ◌*◌, Bool, true, false, ◌&&◌, ◌||◌, not, Option, none, some, List, [], ◌∷◌, ◌++◌, length,
  Text, ltb, ◌==◌, if◌then◌else◌, Result, ok, err, first, update_where, delete_where, map, any,
  trim_space, to_lower, list_eq,
}
use corta_sentry.Jobs.Stamp.{stamp_less, second}

-- A row of auth_tokens. NULL is `none`.
pub record TokenRow : Type 0 where
  pub id : ℕ
  pub token_hash : ℕ
  pub created_at : ℕ
  pub revoked_at : Option ℕ

-- A row of sessions.
pub record SessionRow : Type 0 where
  pub id : ℕ
  pub token_hash : ℕ
  pub csrf_hash : ℕ
  pub created_at : ℕ
  pub expires_at : ℕ
  pub revoked_at : Option ℕ

-- The tables, and the content of the secret file.
pub record AuthState : Type 0 where
  pub tokens : List TokenRow
  pub sessions : List SessionRow
  pub secret : Option Text

pub data AuthError : Type 0 where
  already_initialized secret_not_written invalid_credentials session_required session_not_found :
      AuthError

abbrev pub is_null : Option ℕ → Bool
is_null none = true
is_null (some _) = false

-- What of a request the manager reads.
pub record Request : Type 0 where
  pub authorization : Text
  pub cookie : Option Text
  pub csrf_token : Text

pub data Principal : Type 0 where
  token session : ℕ → Principal

abbrev pub bearer : Text
bearer = b'B' ∷ b'e' ∷ b'a' ∷ b'r' ∷ b'e' ∷ b'r' ∷ b' ' ∷ []

-- strings.HasPrefix and strings.TrimPrefix: the rest, if the text has the prefix.
unfoldable pub after_prefix : Text → Text → Option Text
after_prefix [] s = some s
after_prefix (c ∷ p) [] = none
after_prefix (c ∷ p) (d ∷ s) = let rest = after_prefix p s in if c == d then rest else none

abbrev pub new_token : (Text → ℕ) → ℕ → ℕ → Text → TokenRow
new_token hash id now t = record {
  id = id;
  token_hash = hash t;
  created_at = now;
  revoked_at = none;
}

-- A row that VerifyTokenID accepts.
abbrev pub accepts : ℕ → TokenRow → Bool
accepts h r = is_null r.revoked_at && h == r.token_hash

abbrev pub has_session : ℕ → SessionRow → Bool
has_session h s = s.token_hash == h

abbrev pub live_session : ℕ → SessionRow → Bool
live_session h s = s.token_hash == h && is_null s.revoked_at

abbrev pub twelve_hours : ℕ
twelve_hours = 12 * 60 * 60 * second

module _ (hash : Text → ℕ) where
  -- Bootstrap.
  unfoldable pub bootstrap : ℕ → ℕ → Text → Bool → AuthState → Result AuthError Text × AuthState
  bootstrap id now t written st =
      if any (λ r. is_null r.revoked_at) st.tokens
      then (err already_initialized, st)
      else if not written
      then (err secret_not_written, st)
      else (ok t, record st { tokens = st.tokens ++ new_token hash id now t ∷ []; secret = some t })

  -- VerifyTokenID: the identifier of the token, or nothing for the empty text.
  unfoldable pub verify_token_id : Text → AuthState → Option ℕ
  verify_token_id t st =
      if ltb (length t) 32 || ltb 256 (length t)
      then none
      else elim (first (accepts (hash t)) st.tokens) [ none ↦ none | some r ↦ some r.id ]

  -- Login, with a session identifier and two random tokens.
  unfoldable pub login :
      ℕ → Text → Text → ℕ → Text → AuthState → Result AuthError (Text × Text) × AuthState
  login id sess csrf now t st = elim (verify_token_id t st) [
    | none ↦ (err invalid_credentials, st)
    | some i ↦ (
      ok (sess, csrf),
      record st {
        sessions =
            delete_where (λ s. stamp_less s.expires_at now || not (is_null s.revoked_at))
              st.sessions
            ++ record {
              id = id;
              token_hash = hash sess;
              csrf_hash = hash csrf;
              created_at = now;
              expires_at = now + twelve_hours;
              revoked_at = none;
            }
              ∷ [];
      },
    )
  ]

  -- The first part of Authenticate: a bearer token.
  unfoldable pub bearer_id : Request → AuthState → Option ℕ
  bearer_id r st = elim (after_prefix bearer r.authorization) [
    | none ↦ none
    | some t ↦ verify_token_id t st
  ]

  -- The rest of Authenticate: the session of the cookie.
  unfoldable pub cookie_id : ℕ → Request → AuthState → Option ℕ
  cookie_id now r st = elim r.cookie [
    | none ↦ none
    | some c ↦ elim (first (has_session (hash c)) st.sessions) [
      | none ↦ none
      | some s ↦ if is_null s.revoked_at && ltb now s.expires_at then some s.id else none
    ]
  ]

  -- Authenticate.
  unfoldable pub authenticate : ℕ → Request → AuthState → Option Principal
  authenticate now r st = elim (bearer_id r st) [
    | some i ↦ some (token i)
    | none ↦ elim (cookie_id now r st) [ none ↦ none | some i ↦ some (session i) ]
  ]

  abbrev pub is_empty_text : Text → Bool
  is_empty_text [] = true
  is_empty_text (c ∷ s) = false

  -- The part of CheckCSRF for a browser session.
  unfoldable pub csrf_matches : Request → AuthState → Bool
  csrf_matches r st = elim r.cookie [
    | none ↦ false
    | some c ↦
        if is_empty_text r.csrf_token
        then false
        else elim (first (live_session (hash c)) st.sessions) [
          | none ↦ false
          | some s ↦ hash r.csrf_token == s.csrf_hash
        ]
  ]

  -- CheckCSRF.
  unfoldable pub check_csrf : ℕ → Request → AuthState → Bool
  check_csrf now r st = elim (authenticate now r st) [
    | none ↦ false
    | some (token i) ↦ true
    | some (session i) ↦ csrf_matches r st
  ]

  -- RefreshCSRF, with a random token.
  unfoldable pub refresh_csrf : ℕ → Text → Request → AuthState → Result AuthError Text × AuthState
  refresh_csrf now csrf r st = elim (authenticate now r st) [
    | none ↦ (err session_required, st)
    | some (token i) ↦ (err session_required, st)
    | some (session i) ↦ elim r.cookie [
      | none ↦ (err session_required, st)
      | some c ↦ elim (first (live_session (hash c)) st.sessions) [
        | none ↦ (err session_not_found, st)
        | some s ↦ (
          ok csrf,
          record st {
            sessions =
                update_where (live_session (hash c)) (λ s. record s { csrf_hash = hash csrf })
                  st.sessions;
          },
        )
      ]
    ]
  ]

  -- RevokeSession.
  unfoldable pub revoke_session : ℕ → Text → AuthState → AuthState
  revoke_session now c st = record st {
    sessions =
        update_where (has_session (hash c)) (λ s. record s { revoked_at = some now }) st.sessions;
  }

  -- Logout.
  unfoldable pub logout : ℕ → Request → AuthState → AuthState
  unfolding revoke_session
  logout now r st = elim r.cookie [ none ↦ st | some c ↦ revoke_session now c st ]

  -- Rotate: a new token, its secret file, and the revocation of all that came before. If the file
  -- cannot be written the new row is deleted.
  unfoldable pub rotate : ℕ → ℕ → Text → Bool → AuthState → Result AuthError Text × AuthState
  rotate id now t written st =
      let inserted = st.tokens ++ new_token hash id now t ∷ [] in
      if not written
      then (err secret_not_written, record st { tokens = delete_where (λ r. r.id == id) inserted })
      else (
        ok t,
        record st {
          secret = some t;
          tokens =
              update_where (λ r. not (r.id == id) && is_null r.revoked_at)
                (λ r. record r { revoked_at = some now }) inserted;
          sessions =
              update_where (λ s. is_null s.revoked_at) (λ s. record s { revoked_at = some now })
                st.sessions;
        },
      )

-- BrowserOriginAllowed, on the host that url.Parse finds in the Origin header.
unfoldable pub browser_origin_allowed : (Text → Option Text) → Text → Text → Text → Bool
browser_origin_allowed host_of fetch_site origin host =
    if list_eq (map to_lower fetch_site)
      (map to_lower (b'c' ∷ b'r' ∷ b'o' ∷ b's' ∷ b's' ∷ b'-' ∷ b's' ∷ b'i' ∷ b't' ∷ b'e' ∷ []))
    then false
    else elim (trim_space origin) [
      | [] ↦ true
      | c ∷ s ↦ elim (host_of (c ∷ s)) [
        | none ↦ false
        | some h ↦ list_eq (map to_lower h) (map to_lower host)
      ]
    ]
