-- ===== src/Tests/Api.antt =====
-- internal/api/api.go: a request to merge assets, a login, a request for a scan, and two pages.
use corta_sentry.Prelude.{
  ℕ, ◌≡◌, refl, true, false, Option, none, some, List, [], ◌∷◌, ◌++◌, Text, ◌⊎◌, ok, any, list_eq,
  to_lower, map, ltb, arith, first, trim_space, sort_by, select_where,
}
use corta_sentry.Scope.Address.{v6, addr_eq}
use corta_sentry.Jobs.Stamp.{stamp_less}
use corta_sentry.Auth.Tables.{
  authenticate, check_csrf, session, browser_origin_allowed, bearer_id, cookie_id, csrf_matches,
  after_prefix,
}
use corta_sentry.Api.Guard.{HttpRequest, merge_assets, admit, protect, access_of, same_origin}
use corta_sentry.Api.Guard.Admitted.{is_open_route, changes_state, admit_lem}
use corta_sentry.Api.Login.{Limiters, EventLog, SessionEvent, LoginState, handle_login}
use corta_sentry.Api.Login.Audited.{Outcome, handle_login-Outcome}
use corta_sentry.Api.Scans.{ScanBody}
use corta_sentry.Api.Pages.Cover.{
  pages_from, matching, selected, IsNewestFirst, pages_from-matching,
}
use mathlib.Core.List.{Perm}
use corta_sentry.Records.Observations.{Observation, joined, with_asset}
use corta_sentry.Tests.Auth.{
  hash, secret, cookie_text, csrf_text, initial, browser, logged_in, no_session,
}
use corta_sentry.Tests.Scope.{two_targets, two_ports}
use corta_sentry.Tests.Discovery.{web}

abbrev host : Text
host = b'h' ∷ []

abbrev host_of : Text → Option Text
host_of t = some t

abbrev same_site : HttpRequest
same_site = record { credentials = browser; host = host; origin = host; fetch_site = [] }

merge_admitted :
    admit hash host_of 300 logged_in (host ∷ []) merge_assets same_site ≡ ok (some (session 2))
unfolding admit protect access_of list_eq to_lower browser_origin_allowed check_csrf csrf_matches
    authenticate bearer_id cookie_id after_prefix first trim_space
merge_admitted = refl

admit_lem_example :
    (any (list_eq (map to_lower host)) (host ∷ []) ≡ true)
    × ((is_open_route merge_assets ≡ true)
        ⊎ ((p : corta_sentry.Auth.Tables.Principal) × (some (session 2) ≡ some p)
            × (authenticate hash 300 browser logged_in ≡ some p)
            × ((changes_state merge_assets ≡ false)
                ⊎ ((check_csrf hash 300 browser logged_in ≡ true)
                    × (same_origin host_of same_site ≡ true)))))
admit_lem_example =
    admit_lem hash host_of (host ∷ []) 300 logged_in merge_assets same_site (some (session 2))
      merge_admitted

abbrev three_each : Limiters ℕ
three_each = record { fresh = 3; allow = λ l now. (ltb 0 l, l) }

abbrev keep_all : EventLog (List SessionEvent)
keep_all e l = some (l ++ e ∷ [])

abbrev before_login : LoginState ℕ (List SessionEvent)
before_login = record { rates = []; auth = initial; log = [] }

handle_login-Outcome_example :
    Outcome hash 2 cookie_text csrf_text 200 three_each keep_all host_of same_site host before_login
      no_session browser 300
      (handle_login three_each keep_all hash host_of 2 cookie_text csrf_text 200 same_site host
        (some secret)
        before_login)
handle_login-Outcome_example =
    handle_login-Outcome hash 2 cookie_text csrf_text 200 three_each keep_all host_of same_site host
      before_login no_session (some secret) 300 browser refl

abbrev no_marshal : ScanBody → Text
no_marshal b = []

abbrev body : ScanBody
body = record { targets = two_targets; ports = two_ports }

abbrev three_rows : List Observation
three_rows = web ∷ record web { id = 5; observed_at = 200 } ∷ record web { id = 6 } ∷ []

pages_from-matching_example :
    (pages_from none none (some (v6 1 0)) 2 [] three_rows 0 2
      ≡ matching none none (some (v6 1 0)) 2 [] three_rows)
    × Perm
        (matching none none (some (v6 1 0)) 2 [] three_rows)
        (map with_asset (selected none none (some (v6 1 0)) 2 [] three_rows))
    × IsNewestFirst (matching none none (some (v6 1 0)) 2 [] three_rows)
unfolding sort_by select_where joined addr_eq stamp_less
pages_from-matching_example =
    pages_from-matching none none (some (v6 1 0)) 2 [] three_rows 2 (omega arith) (omega arith)
