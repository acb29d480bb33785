-- ===== src/Api/Guard.antt =====
-- internal/api/api.go and web.go: the table of routes, hostGuard and protect.
pub mod Admitted
use corta_sentry.Prelude.{
  ℕ, Bool, true, false, ◌&&◌, not, Option, none, some, List, [], ◌∷◌, Result, ok, err, Text, map,
  any, list_eq, to_lower, if◌then◌else◌, trim_space,
}
use corta_sentry.Auth.Tables.{
  AuthState, Request, Principal, authenticate, check_csrf, browser_origin_allowed,
}

-- The routes of the mux; `web` is the one that EnableWeb adds for the files of the interface.
pub data Route : Type 0 where
  healthz readyz metrics web login session logout : Route
  assets overview status asset asset_observations asset_changes asset_findings : Route
  asset_candidates merge_assets observations export_observations scans create_scan : Route
  preview_scan cancel_scan jobs rules reload_rules findings patch_finding changes audit imports :
      Route

pub data Method : Type 0 where
  get post patch : Method

-- The methods of the patterns.
unfoldable pub method_of : Route → Method
method_of login = post
method_of session = post
method_of logout = post
method_of merge_assets = post
method_of create_scan = post
method_of preview_scan = post
method_of cancel_scan = post
method_of reload_rules = post
method_of imports = post
method_of patch_finding = patch
method_of _ = get

-- How a route is registered: bare, or by protect with its second argument.
pub data Access : Type 0 where
  bare : Access
  guarded : Bool → Access

unfoldable pub access_of : Route → Access
access_of healthz = bare
access_of readyz = bare
access_of metrics = bare
access_of web = bare
access_of login = bare
access_of session = bare
access_of logout = guarded true
access_of merge_assets = guarded true
access_of create_scan = guarded true
access_of cancel_scan = guarded true
access_of reload_rules = guarded true
access_of patch_finding = guarded true
access_of imports = guarded true
access_of _ = guarded false

-- What the guards read of a request besides that of the authentication.
pub record HttpRequest : Type 0 where
  pub credentials : Request
  pub host : Text
  pub origin : Text
  pub fetch_site : Text

-- The answers of the guards: 421, 401 and 403.
pub data Refusal : Type 0 where
  host_denied unauthorized csrf_failed cross_origin_denied : Refusal

abbrev pub Admission : Type 0
Admission = Result Refusal (Option Principal)

-- allowedHosts, as New fills it.
unfoldable pub allowed_hosts : List Text → List Text
allowed_hosts [] = []
allowed_hosts (h ∷ hs) = map to_lower (trim_space h) ∷ allowed_hosts hs

-- BrowserOriginAllowed.
abbrev pub same_origin : (Text → Option Text) → HttpRequest → Bool
same_origin host_of r = browser_origin_allowed host_of r.fetch_site r.origin r.host

module _ (hash : Text → ℕ) (host_of : Text → Option Text) (now : ℕ) (st : AuthState) where
  -- protect: the principal that the handler is called for.
  unfoldable pub protect : Bool → HttpRequest → Admission
  protect csrf r = elim (authenticate hash now r.credentials st) [
    | none ↦ err unauthorized
    | some actor ↦
        if csrf && not (check_csrf hash now r.credentials st)
        then err csrf_failed
        else if csrf && not (same_origin host_of r)
        then err cross_origin_denied
        else ok (some actor)
  ]

  -- What a request passes before its handler is called. The handlers of the bare routes login and
  -- session look at the origin themselves.
  unfoldable pub admit : List Text → Route → HttpRequest → Admission
  unfolding protect
  admit hosts route r =
      if not (any (list_eq (map to_lower r.host)) hosts)
      then err host_denied
      else elim (access_of route) [ bare ↦ ok none | guarded csrf ↦ protect csrf r ]
