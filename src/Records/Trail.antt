-- ===== src/Records/Trail.antt =====
-- internal/storage/sqlite/store.go: ScopeDecision as the auditor of internal/scope/engine.go.
use corta_sentry.Prelude.{
  ℕ, ◌+◌, ◌<◌, ◌≡◌, refl, sym, subst, false, none, some, List, [], ◌∷◌, ◌++◌, arith, any,
  if◌then◌else◌, Bool-cases, Option-cases, inl, inr, All, All-append, All-mono, Text, ap, ◌∙◌,
}
use corta_sentry.Scope.Address.{Addr, NetText, normalize_addr}
use corta_sentry.Scope.Engine.{
  Engine, World, Decision, Phase, Auditor, decide, judge, finalize, request, numbered,
  active_disabled, invalid_ip,
}
use corta_sentry.Scope.Decide.{Records, judge-id}
use corta_sentry.Records.Policy.{
  PolicyTables, AuditRow, scope_decision, decision_id, audit_id, decision_event, is_audited,
}

-- Every identifier in the tables was made before those that come next.
pub record IsFresh (w : World PolicyTables) : Type 0 where
  pub decisions_below : All (λ (d : Decision). d.id < w.next_id) w.store.decisions
  pub audit_below : All (λ (r : AuditRow). r.id < w.store.next_id) w.store.audit

no_decision :
    (i : ℕ) (ds : List Decision)
    → All (λ (d : Decision). d.id < i) ds
    → any (decision_id i) ds ≡ false
no_decision i [] h = refl
no_decision i (d ∷ ds) h = ground (arith, no_decision i ds h.1)

no_event :
    (i : ℕ) (rs : List AuditRow) → All (λ (r : AuditRow). r.id < i) rs → any (audit_id i) rs ≡ false
no_event i [] h = refl
no_event i (r ∷ rs) h = ground (arith, no_event i rs h.1)

judge_unaudited :
    {S : Type 0} (e : Engine S) (a : Addr) (port : ℕ) (d : Decision)
    → judge (record e { audit = none }) a port d ≡ judge e a port d
unfolding judge
judge_unaudited e a port d = refl

-- What recording a decision leaves.
abbrev pub recorded : PolicyTables → Decision → PolicyTables
recorded t d =
    if is_audited d
    then record {
      decisions = t.decisions ++ d ∷ [];
      audit = t.audit ++ decision_event t.next_id d ∷ [];
      next_id = t.next_id + 1;
    }
    else record t { decisions = t.decisions ++ d ∷ [] }

scope_decision-recorded :
    (w : World PolicyTables) (d : Decision)
    → IsFresh w
    → d.id ≡ w.next_id
    → scope_decision w.store d ≡ some (recorded w.store d)
unfolding scope_decision
scope_decision-recorded w d f i =
    let a : any (decision_id d.id) w.store.decisions ≡ false = no_decision d.id w.store.decisions (
      subst (λ (n : ℕ). All (λ (x : Decision). x.id < n) w.store.decisions) (sym i)
        f.decisions_below) in
    ground (arith, no_event w.store.next_id w.store.audit f.audit_below)

-- The store keeps its promise to the engine.
pub IsFresh-Records :
    (e : Engine PolicyTables) (w : World PolicyTables)
    → e.audit ≡ some scope_decision
    → IsFresh w
    → Records e w
IsFresh-Records e w au f persist p d i =
    let q : persist ≡ scope_decision = cc in
    let r : persist w.store d ≡ some (recorded w.store d) =
      ap (λ (g : Auditor PolicyTables). g w.store d) q ∙ scope_decision-recorded w d f i in
    λ n. cc

module _ (e : Engine PolicyTables) (w : World PolicyTables) (au : e.audit ≡ some scope_decision)
    (f : IsFresh w) where
  finalize-recorded :
      (d : Decision)
      → d.id ≡ w.next_id
      → finalize e (numbered w) d ≡ (d, record (numbered w) { store = recorded w.store d })
  unfolding finalize
  finalize-recorded d i = rw (au, finalize) (rw (scope_decision-recorded w d f i) refl)

  recorded-IsFresh :
      (d : Decision)
      → d.id ≡ w.next_id
      → IsFresh (record (numbered w) { store = recorded w.store d })
  unfolding decision_event
  recorded-IsFresh d i =
      let ds =
        All-append (λ (x : Decision). x.id < w.next_id + 1) w.store.decisions (d ∷ [])
          (All-mono _ _ (λ (x : Decision) (h : x.id < w.next_id). ground arith) w.store.decisions
            f.decisions_below)
          (ground arith) in
      let rs =
        All-mono (λ (x : AuditRow). x.id < w.store.next_id)
          (λ (x : AuditRow). x.id < w.store.next_id + 1)
          (λ (x : AuditRow) (h : x.id < w.store.next_id). ground arith) w.store.audit
          f.audit_below in
      elim (Bool-cases (is_audited d)) [
        | inl y ↦ rw y (record {
          decisions_below = ds;
          audit_below =
              All-append (λ (x : AuditRow). x.id < w.store.next_id + 1) w.store.audit
                (decision_event w.store.next_id d ∷ []) rs (ground arith);
        })
        | inr n ↦ rw n (record { decisions_below = ds; audit_below = f.audit_below })
      ]

  -- A decision that `decide` passes to the auditor, and what becomes of it.
  abbrev Kept : Decision × World PolicyTables → Decision → Type 0
  Kept r d = (r.0 ≡ d) × (r.0.id ≡ w.next_id) × (r.1.store ≡ recorded w.store r.0) × IsFresh r.1

  finalize-Kept : (d : Decision) → d.id ≡ w.next_id → Kept (finalize e (numbered w) d) d
  finalize-Kept d i = rw (finalize-recorded d i) (refl, i, refl, recorded-IsFresh d i)

  -- With the store as its auditor and tables whose identifiers are all used up in order, the engine
  -- decides as it would with no auditor at all. Every decision, allowed or refused, gets the next
  -- identifier and is appended to the decisions, and is appended to the audit log unless it allows
  -- a preview; nothing else of the tables changes, and the identifiers stay in order.
  pub decide_trail :
      (net : NetText) (target : Text) (port : ℕ) (phase : Phase)
      → let r = decide net e w target port phase in
        (r.0 ≡ (decide net (record e { audit = none }) w target port phase).0)
        × (r.0.id ≡ w.next_id)
        × (r.1.store ≡ recorded w.store r.0)
        × IsFresh r.1
  unfolding decide finalize
  decide_trail net target port phase = elim (Bool-cases e.cfg.active_enabled) [
    | inr off ↦
        let d = record (request w target port phase) { reason = active_disabled } in
        rw off (finalize-Kept d refl)
    | inl on ↦ elim (Option-cases (normalize_addr net target)) [
      | inl bad ↦
          let d = record (request w target port phase) { reason = invalid_ip } in
          rw (on, bad) (finalize-Kept d refl)
      | inr (a, n) ↦
          let d = request w (net.show a) port phase in
          let (p, i, t, g) = finalize-Kept (judge e a port d) (judge-id e a port d) in
          rw (on, n) (p ∙ sym (judge_unaudited e a port d), i, t, g)
    ]
  ]
