-- ===== src/Api/Guard/Admitted.antt =====
-- internal/api/api.go: what a request that reaches a handler must have shown.
use corta_sentry.Prelude.{
  ℕ, ◌≡◌, Bool, true, false, ◌&&◌, not, Option, some, List, ok, Text, map, any, list_eq, to_lower,
  arith, Bool-cases, Option-cases, inl, inr, ◌⊎◌,
}
use corta_sentry.Auth.Tables.{AuthState, Principal, authenticate, check_csrf}
use corta_sentry.Api.Guard.{
  Route, healthz, readyz, metrics, web, login, session, preview_scan, Method, get, method_of,
  access_of, Access, bare, guarded, HttpRequest, same_origin, protect, admit,
}

-- The routes that need no credentials.
unfoldable pub is_open_route : Route → Bool
is_open_route healthz = true
is_open_route readyz = true
is_open_route metrics = true
is_open_route web = true
is_open_route login = true
is_open_route session = true
is_open_route _ = false

abbrev is_get : Method → Bool
is_get get = true
is_get _ = false

-- A route that changes what is stored: no GET, and not the preview of a scan.
unfoldable pub changes_state : Route → Bool
unfolding method_of
changes_state preview_scan = false
changes_state route = not (is_get (method_of route))

abbrev csrf_of : Access → Bool
csrf_of bare = false
csrf_of (guarded csrf) = csrf

guarded_route :
    (route : Route)
    → is_open_route route ≡ false
    → (access_of route ≡ guarded (csrf_of (access_of route)))
      × ((changes_state route && not (csrf_of (access_of route))) ≡ false)
unfolding is_open_route access_of changes_state method_of
guarded_route healthz h = ground arith
guarded_route route h = ground arith

module _ (hash : Text → ℕ) (host_of : Text → Option Text) (hosts : List Text) (now : ℕ)
    (st : AuthState) where
  protect_lem :
      (csrf : Bool) (r : HttpRequest) (actor : Option Principal)
      → protect hash host_of now st csrf r ≡ ok actor
      → (p : Principal) × (actor ≡ some p)
        × (authenticate hash now r.credentials st ≡ some p)
        × ((csrf ≡ false)
            ⊎ ((check_csrf hash now r.credentials st ≡ true) × (same_origin host_of r ≡ true)))
  unfolding protect
  protect_lem csrf r actor h = elim (Option-cases (authenticate hash now r.credentials st)) [
    | inl n ↦ absurd (ground arith)
    | inr (p, e) ↦ elim (Bool-cases csrf) [
      | inr f ↦ (p, ground arith, e, inl f)
      | inl t ↦ elim (Bool-cases (check_csrf hash now r.credentials st)) [
        | inr n ↦ absurd (ground arith)
        | inl c ↦ elim (Bool-cases (same_origin host_of r)) [
          | inr n ↦ absurd (ground arith)
          | inl o ↦ (p, ground arith, e, inr (c, o))
        ]
      ]
    ]
  ]

  -- A request whose handler is called names a configured host. Unless its route is one of the six
  -- open ones, it is authenticated, and the handler is called for the principal that it is
  -- authenticated as; and if the route changes what is stored, it also passes CheckCSRF and comes
  -- from no other origin.
  pub admit_lem :
      (route : Route) (r : HttpRequest) (actor : Option Principal)
      → admit hash host_of now st hosts route r ≡ ok actor
      → (any (list_eq (map to_lower r.host)) hosts ≡ true)
        × ((is_open_route route ≡ true)
            ⊎ ((p : Principal) × (actor ≡ some p)
                × (authenticate hash now r.credentials st ≡ some p)
                × ((changes_state route ≡ false)
                    ⊎ ((check_csrf hash now r.credentials st ≡ true)
                        × (same_origin host_of r ≡ true)))))
  unfolding admit
  admit_lem route r actor h = elim (Bool-cases (any (list_eq (map to_lower r.host)) hosts)) [
    | inr n ↦ absurd (ground arith)
    | inl y ↦ elim (Bool-cases (is_open_route route)) [
      | inl o ↦ (y, inl o)
      | inr k ↦
          let (g, c) = guarded_route route k in
          let (p, a, e, x) =
            protect_lem (csrf_of (access_of route)) r actor (rw (y, g, admit) at h) in
          (y, inr (p, a, e, elim x [ inl f ↦ inl (ground arith) | inr b ↦ inr b ]))
    ]
  ]
