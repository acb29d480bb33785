-- ===== src/Scope/Decide.antt =====
-- internal/scope/engine.go: what a decision of the engine means.
use corta_sentry.Prelude.{
  ℕ, ◌≤◌, ◌≡◌, refl, ◌≢◌, ◌⊎◌, inl, inr, true, false, none, some, List, [], ◌∷◌, Memᴰ, arith, ◌==◌,
  ==_iff, Bool-cases, Option-cases, Text, any→mem, any-of_mem, not_any, any-false, elem→mem,
  elem-of_mem, not_elem, elem-false, any, elem,
}
use corta_sentry.Scope.Address.{
  Addr, Prefix, NetText, normalize_addr, is_unspecified, is_multicast, is_broadcast,
  is_private_or_loopback, contains,
}
use corta_sentry.Scope.Engine.{
  Phase, authorized, active_disabled, invalid_ip, Decision, Auditor, Engine, World, finalize, judge,
  decide, request, numbered,
}

nil_or_not : (xs : List ℕ) → (xs ≡ []) ⊎ (xs ≢ [])
nil_or_not [] = inl refl
nil_or_not (x ∷ xs) = inr (λ z. cc)

-- The policy, said without the code: what must hold of an address and a port.
pub record IsAuthorized {S : Type 0} (e : Engine S) (a : Addr) (port : ℕ) : Type 0 where
  pub active : e.cfg.active_enabled ≡ true
  pub specified : is_unspecified a ≡ false
  pub unicast : is_multicast a ≡ false
  pub not_broadcast : is_broadcast a ≡ false
  pub reachable : (e.cfg.allow_public_targets ≡ true) ⊎ (is_private_or_loopback a ≡ true)
  pub listed : (p : Prefix) × Memᴰ p e.allow × (contains p a ≡ true)
  pub not_denied : (p : Prefix) → Memᴰ p e.deny → contains p a ≡ false
  pub port_positive : 1 ≤ port
  pub port_bounded : port ≤ 65535
  pub not_excluded : ¬ Memᴰ port e.excluded
  pub port_listed : e.allowed_ports ≢ [] → Memᴰ port e.allowed_ports

listed_or_none :
    {S : Type 0} (e : Engine S) (port : ℕ)
    → (e.allowed_ports ≢ [] → Memᴰ port e.allowed_ports)
    → (e.allowed_ports ≡ []) ⊎ (elem ◌==◌ port e.allowed_ports ≡ true)
listed_or_none e port h = elim (nil_or_not e.allowed_ports) [
  | inl z ↦ inl z
  | inr ne ↦ inr (elem-of_mem ◌==◌ ==_iff port e.allowed_ports (h ne))
]

module _ {S : Type 0} (e : Engine S) (a : Addr) (port : ℕ) (d : Decision) where
  -- The ladder's tests, gathered: `judge` sets `allowed` only if none of them fires.
  judge_tests :
      d.allowed ≡ false
      → (judge e a port d).allowed ≡ true
      → (is_unspecified a ≡ false)
        × (is_multicast a ≡ false)
        × (is_broadcast a ≡ false)
        × ((e.cfg.allow_public_targets ≡ true) ⊎ (is_private_or_loopback a ≡ true))
        × (any (λ p. contains p a) e.allow ≡ true)
        × (any (λ p. contains p a) e.deny ≡ false)
        × (1 ≤ port)
        × (port ≤ 65535)
        × (elem ◌==◌ port e.excluded ≡ false)
        × ((e.allowed_ports ≡ []) ⊎ (elem ◌==◌ port e.allowed_ports ≡ true))
  unfolding judge
  judge_tests u h = ground arith

  judge-IsAuthorized :
      e.cfg.active_enabled ≡ true
      → d.allowed ≡ false
      → (judge e a port d).allowed ≡ true
      → IsAuthorized e a port
  judge-IsAuthorized on u h =
      let t = judge_tests u h in
      record {
        active = on;
        specified = t.0;
        unicast = t.1;
        not_broadcast = t.2;
        reachable = t.3;
        listed = any→mem _ e.allow t.4;
        not_denied = not_any _ e.deny t.5;
        port_positive = t.6;
        port_bounded = t.7;
        not_excluded = not_elem ◌==◌ ==_iff port e.excluded t.8;
        port_listed = λ ne. elim t.9 [
          | inl z ↦ absurd (ne z)
          | inr m ↦ elem→mem ◌==◌ ==_iff port e.allowed_ports m
        ];
      }

  -- Conversely, an authorised target passes every test.
  judge-of_IsAuthorized :
      IsAuthorized e a port → judge e a port d ≡ record d { allowed = true; reason = authorized }
  unfolding judge
  judge-of_IsAuthorized h =
      let (p, m, c) = h.listed in
      ground (
        arith,
        any-of_mem (λ (q : Prefix). contains q a) p e.allow m c,
        any-false (λ (q : Prefix). contains q a) e.deny h.not_denied,
        elem-false ◌==◌ ==_iff port e.excluded h.not_excluded,
        listed_or_none e port h.port_listed,
      )

module _ {S : Type 0} (e : Engine S) (w : World S) (d : Decision) where
  -- `finalize` never turns a refusal into an allowance.
  finalize_allowed : (finalize e w d).0.allowed ≡ true → d.allowed ≡ true
  unfolding finalize
  finalize_allowed h = ground arith

  finalize_recorded :
      (persist : Auditor S)
      → e.audit ≡ some persist
      → (finalize e w d).0.allowed ≡ true
      → persist w.store (finalize e w d).0 ≡ some (finalize e w d).1.store
  unfolding finalize
  finalize_recorded persist au h = ground arith

-- The auditor, if there is one, records every decision that has the next free identifier.
abbrev pub Records : {S : Type 0} → Engine S → World S → Type 0
Records {S} e w =
    (persist : Auditor S)
    → e.audit ≡ some persist
    → (d : Decision) → d.id ≡ w.next_id
    → persist w.store d ≢ none

pub judge-id :
    {S : Type 0} (e : Engine S) (a : Addr) (port : ℕ) (d : Decision) → (judge e a port d).id ≡ d.id
unfolding judge
judge-id e a port d = ground arith

pub finalize_kept :
    {S : Type 0} (e : Engine S) (w : World S) (d : Decision)
    → d.id ≡ w.next_id
    → Records e w
    → (finalize e (numbered w) d).0 ≡ d
unfolding finalize
finalize_kept e w d i r = elim (Option-cases e.audit) [
  | inl n ↦ ground arith
  | inr (persist, au) ↦ ground (arith, r persist au d i)
]

module _ (net : NetText) {S : Type 0} (e : Engine S) (w : World S) (target : Text) (port : ℕ)
    (phase : Phase) where
  decide_off : e.cfg.active_enabled ≡ false → (decide net e w target port phase).0.allowed ≡ false
  unfolding decide finalize
  decide_off off = ground arith

  decide_unread :
      normalize_addr net target ≡ none → (decide net e w target port phase).0.allowed ≡ false
  unfolding decide finalize
  decide_unread bad = ground arith

  pub decide_read :
      (a : Addr)
      → e.cfg.active_enabled ≡ true
      → normalize_addr net target ≡ some a
      → decide net e w target port phase
        ≡ finalize e (numbered w) (judge e a port (request w (net.show a) port phase))
  unfolding decide
  decide_read a on n = ground arith

  pub decide_disabled :
      e.cfg.active_enabled ≡ false
      → decide net e w target port phase
        ≡ finalize e
            (numbered w)
            (record (request w target port phase) { reason = active_disabled })
  unfolding decide
  decide_disabled off = ground arith

  pub decide_invalid :
      e.cfg.active_enabled ≡ true
      → normalize_addr net target ≡ none
      → decide net e w target port phase
        ≡ finalize e (numbered w) (record (request w target port phase) { reason = invalid_ip })
  unfolding decide
  decide_invalid on n = ground arith

  -- If a decision of the scope engine allows a target, the target's text reads as an address, and
  -- the address and port meet the policy: active probing is on; the address is not unspecified,
  -- multicast or broadcast; it is private, loopback or link-local unless public targets are
  -- allowed; an allowed prefix and no denied one contains it; the port is from 1 to 65535, not
  -- excluded, and listed if any port is.
  pub decide-IsAuthorized :
      (decide net e w target port phase).0.allowed ≡ true
      → (a : Addr) × (normalize_addr net target ≡ some a) × IsAuthorized e a port
  decide-IsAuthorized h = elim (Bool-cases e.cfg.active_enabled) [
    | inr off ↦ cc (decide_off off)
    | inl on ↦ elim (Option-cases (normalize_addr net target)) [
      | inl bad ↦ cc (decide_unread bad)
      | inr (a, n) ↦
          let passed =
            finalize_allowed e (numbered w) (judge e a port (request w (net.show a) port phase))
              (rw (decide_read a on n) at h) in
          (a, n, judge-IsAuthorized e a port (request w (net.show a) port phase) on refl passed)
    ]
  ]

  -- Where the auditor, if there is one, records every decision that has the next free identifier, a
  -- target whose text reads as an address that meets the policy with the port is allowed, with the
  -- reason `authorized`.
  pub decide-of_IsAuthorized :
      (a : Addr)
      → normalize_addr net target ≡ some a
      → IsAuthorized e a port
      → Records e w
      → ((decide net e w target port phase).0.allowed ≡ true)
        × ((decide net e w target port phase).0.reason ≡ authorized)
  decide-of_IsAuthorized a n h r =
      rw
        (
          decide_read a h.active n,
          finalize_kept e w (judge e a port (request w (net.show a) port phase))
              (judge-id e a port (request w (net.show a) port phase)) r,
          judge-of_IsAuthorized e a port (request w (net.show a) port phase) h,
        )
        (refl, refl)

  -- An engine with an auditor allows a target only if that very decision has been recorded.
  pub decide_recorded :
      (persist : Auditor S)
      → e.audit ≡ some persist
      → (decide net e w target port phase).0.allowed ≡ true
      → persist w.store (decide net e w target port phase).0
        ≡ some (decide net e w target port phase).1.store
  unfolding decide finalize
  decide_recorded persist au h = ground arith
