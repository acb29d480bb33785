-- ===== src/Discovery/Dialer.antt =====
-- internal/discovery/dialer.go: a connection is attempted only after a decision that allows it. What
-- the network and the rate limiters do is a parameter, read at the number of attempts and of
-- waits so far.
pub mod Safety
use corta_sentry.Prelude.{
  ℕ, ◌+◌, Bool, true, false, ◌&&◌, ◌||◌, not, Option, none, some, List, [], ◌∷◌, ◌++◌, Result, ok,
  err, any, if◌then◌else◌, length, Text,
}
use corta_sentry.Scope.Address.{Addr, NetText, addr_eq}
use corta_sentry.Scope.Engine.{Engine, World, Decision, Reason, execution, decide}

-- rate.Limiter.Wait and net.Dialer.DialContext.
pub record Network : Type 0 where
  pub granted : ℕ → Bool
  pub connects : ℕ → Addr → ℕ → Bool

-- The dialer, with the world that the engine decides in. `dialed` holds the connections attempted,
-- the newest first, with the decision that each was allowed by.
pub record Probing (S : Type 0) : Type 0 where
  pub world : World S
  pub limiters : List Addr
  pub waits : ℕ
  pub dialed : List (Addr × ℕ × Decision)

pub data DialError : Type 0 where
  scope_denied : Reason → DialError
  not_granted refused : DialError

abbrev pub Dialed : Type 0 → Type 0
Dialed S = Result DialError Decision × Decision × Probing S

module _ (net : NetText) {S : Type 0} (e : Engine S) (wire : Network) where
  -- The second half of Dial: the limiter of the host, and the connection.
  unfoldable pub connect : Addr → ℕ → Decision → Probing S → Dialed S
  connect a port d st =
      let st' = record st {
        limiters = if any (addr_eq a) st.limiters then st.limiters else a ∷ st.limiters;
        waits = st.waits + 2;
      } in
      if not (wire.granted (st.waits + 1)) then (err not_granted, d, st') else (
        (if wire.connects (length st.dialed) a port then ok d else err refused),
        d,
        record st' { dialed = (a, port, d) ∷ st.dialed },
      )

  -- Dial.
  unfoldable pub dial : Addr → ℕ → Probing S → Dialed S
  unfolding connect
  dial a port st =
      let r = decide net e st.world (net.show a) port execution in
      let d = r.0 in
      let st' = record st { world = r.1 } in
      if not d.allowed
      then (err (scope_denied d.reason), d, st')
      else if not (wire.granted st.waits)
      then (err not_granted, d, record st' { waits = st.waits + 1 })
      else connect a port d st'
