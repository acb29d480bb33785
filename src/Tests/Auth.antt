-- ===== src/Tests/Auth.antt =====
-- internal/auth/auth.go with a polynomial for the hash, one token and one session.
use corta_sentry.Prelude.{
  ℕ, ◌+◌, ◌*◌, ◌≡◌, ◌≢◌, refl, true, none, some, [], ◌∷◌, ◌++◌, arith, Text, ◌⊎◌, Memᴰ, first,
  update_where, delete_where, ok,
}
use corta_sentry.Auth.Tables.{
  SessionRow, AuthState, Request, token, session, bearer, after_prefix, new_token, has_session,
  twelve_hours, verify_token_id, login, authenticate, bearer_id, cookie_id, check_csrf,
  csrf_matches, refresh_csrf, rotate,
}
use corta_sentry.Auth.Requests.{authenticate_lem, check_csrf_lem, IsTokenOf, IsSessionOf}
use corta_sentry.Auth.Rotation.{Unused, rotate_lem}
use corta_sentry.Auth.Sessions.{login_lem}
use corta_sentry.Tests.Codec.{repeat}

abbrev pub hash : Text → ℕ
hash [] = 7
hash (c ∷ s) = c + 31 * hash s

abbrev pub secret : Text
secret = repeat 32 b'a'

abbrev renewed_secret : Text
renewed_secret = repeat 32 b'b'

abbrev pub cookie_text : Text
cookie_text = b's' ∷ []

abbrev pub csrf_text : Text
csrf_text = b'c' ∷ []

abbrev pub initial : AuthState
initial = record { tokens = new_token hash 1 100 secret ∷ []; sessions = []; secret = some secret }

abbrev with_token : Text → Request
with_token t = record { authorization = bearer ++ t; cookie = none; csrf_token = [] }

abbrev pub browser : Request
browser = record { authorization = []; cookie = some cookie_text; csrf_token = csrf_text }

abbrev pub logged_in : AuthState
logged_in = record initial {
  sessions =
      record {
        id = 2;
        token_hash = hash cookie_text;
        csrf_hash = hash csrf_text;
        created_at = 200;
        expires_at = 200 + twelve_hours;
        revoked_at = none;
      }
      ∷ [];
}

login_succeeds :
    (login hash 2 cookie_text csrf_text 200 secret initial)
    ≡ (ok (cookie_text, csrf_text), logged_in)
unfolding login verify_token_id first delete_where
login_succeeds = refl

login_answers :
    (login hash 2 cookie_text csrf_text 200 secret initial).0 ≡ ok (cookie_text, csrf_text)
unfolding login verify_token_id first delete_where
login_answers = refl

pub no_session : first (has_session (hash cookie_text)) initial.sessions ≡ none
unfolding first
no_session = refl

no_bearer : after_prefix bearer browser.authorization ≡ none
unfolding after_prefix
no_bearer = refl

login_lem_example :
    let st = (login hash 2 cookie_text csrf_text 200 secret initial).1 in
    (authenticate hash 300 browser st ≡ some (session 2)) × (check_csrf hash 300 browser st ≡ true)
login_lem_example =
    login_lem hash 2 cookie_text csrf_text 200 secret initial login_answers no_session (λ z. cc) 300
      browser (omega arith) no_bearer refl refl

pub browser_known : authenticate hash 300 browser logged_in ≡ some (session 2)
unfolding authenticate bearer_id cookie_id after_prefix first
browser_known = refl

pub browser_passes : check_csrf hash 300 browser logged_in ≡ true
unfolding check_csrf csrf_matches authenticate bearer_id cookie_id after_prefix first
browser_passes = refl

authenticate_lem_example :
    ((i : ℕ) × (session 2 ≡ token i) × IsTokenOf hash browser logged_in i)
    ⊎ ((i : ℕ) × (session 2 ≡ session i) × IsSessionOf hash 300 browser logged_in i)
authenticate_lem_example = authenticate_lem hash 300 browser logged_in (session 2) browser_known

check_csrf_lem_example :
    ((i : ℕ) × IsTokenOf hash browser logged_in i)
    ⊎ ((i : ℕ) × IsSessionOf hash 300 browser logged_in i
        × ((c : Text) × (row : SessionRow) × (some cookie_text ≡ some c)
            × Memᴰ row logged_in.sessions
            × (row.token_hash ≡ hash c)
            × (row.csrf_hash ≡ hash csrf_text)
            × (csrf_text ≢ [])))
check_csrf_lem_example = check_csrf_lem hash 300 browser logged_in browser_passes

abbrev fresh_csrf : Text
fresh_csrf = b'd' ∷ []

refresh_succeeds : (refresh_csrf hash 300 fresh_csrf browser logged_in).0 ≡ ok fresh_csrf
unfolding refresh_csrf authenticate bearer_id cookie_id after_prefix first
refresh_succeeds = refl

id-Unused : Unused 3 logged_in.tokens
id-Unused r (Memᴰ.head e) z = ground arith
id-Unused r (Memᴰ.tail m) z = elim m [ ]

new_token_known :
    authenticate hash 600
      (with_token renewed_secret)
      (rotate hash 3 500 renewed_secret true logged_in).1
    ≡ some (token 3)
unfolding authenticate bearer_id verify_token_id cookie_id after_prefix first rotate update_where
new_token_known = refl

old_token_refused :
    authenticate hash 600 (with_token secret) (rotate hash 3 500 renewed_secret true logged_in).1
    ≡ none
unfolding authenticate bearer_id verify_token_id cookie_id after_prefix first rotate update_where
old_token_refused = refl

rotate_lem_example :
    (token 3 ≡ token 3)
    × ((s : Text) × (after_prefix bearer (with_token renewed_secret).authorization ≡ some s)
        × (hash s ≡ hash renewed_secret))
rotate_lem_example =
    rotate_lem hash 3 500 renewed_secret logged_in id-Unused 600 (with_token renewed_secret)
      (token 3) new_token_known
