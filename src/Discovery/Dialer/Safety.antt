-- ===== src/Discovery/Dialer/Safety.antt =====
-- internal/discovery/dialer.go: which connections Dial attempts.
use corta_sentry.Prelude.{
  ℕ, ◌+◌, ◌≡◌, ◌≢◌, refl, true, some, ◌∷◌, ◌⊎◌, inl, inr, Bool-cases, All, ok,
}
use corta_sentry.Scope.Address.{Addr, NetText, normalize_addr}
use corta_sentry.Scope.Engine.{Engine, Decision, execution, decide}
use corta_sentry.Scope.Decide.{IsAuthorized, decide-IsAuthorized}
use corta_sentry.Discovery.Dialer.{Network, Probing, Dialed, dial, connect}

module _ (net : NetText) {S : Type 0} (e : Engine S) where
  -- What must hold of an attempt: its decision allowed it, and the policy covers the address as
  -- its text is read, and the port.
  pub record IsAllowed (at : Addr × ℕ × Decision) : Type 0 where
    pub allowed : at.2.allowed ≡ true
    pub policy : (a : Addr) × (normalize_addr net (net.show at.0) ≡ some a) × IsAuthorized e a at.1

module _ (net : NetText) {S : Type 0} (e : Engine S) (wire : Network) where
  abbrev Kept : Addr → ℕ → Probing S → Dialed S → Type 0
  Kept a port st r =
      ((r.2.dialed ≡ st.dialed) × (r.0 ≢ ok r.1))
      ⊎ ((r.2.dialed ≡ (a, port, r.1) ∷ st.dialed) × IsAllowed net e (a, port, r.1))

  connect_cases :
      (a : Addr) (port : ℕ) (d : Decision) (st : Probing S)
      → IsAllowed net e (a, port, d)
      → Kept a port st (connect net e wire a port d st)
  unfolding connect
  connect_cases a port d st h = elim (Bool-cases (wire.granted (st.waits + 1))) [
    | inl y ↦ rw y (inr (refl, h))
    | inr n ↦ rw n (inl (refl, λ z. cc))
  ]

  -- Dial either attempts nothing and answers with no connection, or attempts one connection, to the
  -- address and port it was given, which its decision allowed and the policy covers.
  pub dial_cases :
      (a : Addr) (port : ℕ) (st : Probing S) → Kept a port st (dial net e wire a port st)
  unfolding dial
  dial_cases a port st =
      let r = decide net e st.world (net.show a) port execution in
      elim (Bool-cases r.0.allowed) [
        | inr n ↦ rw n (inl (refl, λ z. cc))
        | inl y ↦ elim (Bool-cases (wire.granted st.waits)) [
          | inr m ↦ rw (y, m) (inl (refl, λ z. cc))
          | inl g ↦
              rw (y, g)
                (connect_cases a port r.0 (record st { world = r.1 })
                  (record {
                    allowed = y;
                    policy = decide-IsAuthorized net e st.world (net.show a) port execution y;
                  }))
        ]
      ]

  -- The attempts of a state are all allowed.
  abbrev pub IsSafe : Probing S → Type 0
  IsSafe st = All (IsAllowed net e) st.dialed

  pub dial-IsSafe :
      (a : Addr) (port : ℕ) (st : Probing S) → IsSafe st → IsSafe (dial net e wire a port st).2
  dial-IsSafe a port st h = elim (dial_cases a port st) [
    | inl (q, n) ↦ rw q h
    | inr (q, k) ↦ rw q (k, h)
  ]
