-- ===== src/Records/Policy.antt =====
-- internal/storage/sqlite/store.go: ScopeDecision, which is the auditor of the scope engine, and
-- the audit log (Audit, ListAudit).
use corta_sentry.Prelude.{
  ℕ, ◌+◌, Bool, true, false, ◌||◌, not, Option, none, some, List, [], ◌∷◌, ◌++◌, Text, any, ◌==◌,
  if◌then◌else◌, sort_by, take,
}
use corta_sentry.Scope.Engine.{Phase, preflight, execution, Reason, Decision}
use corta_sentry.Jobs.Stamp.{stamp_less}
use corta_sentry.Records.Observations.{page_limit}

-- What the audit log holds of an event: the details of a decision are its port, reason and phase.
pub data Details : Type 0 where
  no_details : Details
  of_decision : ℕ → Reason → Phase → Details
  other_details : Text → Details

-- A row of audit_events. An identifier or a time of 0 is missing.
pub record AuditRow : Type 0 where
  pub id : ℕ
  pub at : ℕ
  pub actor : Text
  pub action : Text
  pub resource_type : Text
  pub resource_id : Text
  pub outcome : Text
  pub request_id : Text
  pub details : Details

-- policy_decisions and audit_events, with the identifier that newID makes next.
pub record PolicyTables : Type 0 where
  pub decisions : List Decision
  pub audit : List AuditRow
  pub next_id : ℕ

abbrev pub is_preflight : Phase → Bool
is_preflight preflight = true
is_preflight execution = false

abbrev pub decision_id : ℕ → Decision → Bool
decision_id i d = d.id == i

abbrev pub audit_id : ℕ → AuditRow → Bool
audit_id i r = r.id == i

abbrev system : Text
system = b's' ∷ b'y' ∷ b's' ∷ b't' ∷ b'e' ∷ b'm' ∷ []

abbrev scope_decision_action : Text
scope_decision_action =
    b's' ∷ b'c' ∷ b'o' ∷ b'p' ∷ b'e' ∷ b'.' ∷ b'd' ∷ b'e' ∷ b'c' ∷ b'i' ∷ b's' ∷ b'i' ∷ b'o' ∷ b'n'
    ∷ []

abbrev target_text : Text
target_text = b't' ∷ b'a' ∷ b'r' ∷ b'g' ∷ b'e' ∷ b't' ∷ []

abbrev outcome_text : Bool → Text
outcome_text true = b'a' ∷ b'l' ∷ b'l' ∷ b'o' ∷ b'w' ∷ b'e' ∷ b'd' ∷ []
outcome_text false = b'd' ∷ b'e' ∷ b'n' ∷ b'i' ∷ b'e' ∷ b'd' ∷ []

-- The audit event of a decision.
unfoldable pub decision_event : ℕ → Decision → AuditRow
decision_event i d = record {
  id = i;
  at = d.at;
  actor = system;
  action = scope_decision_action;
  resource_type = target_text;
  resource_id = d.target;
  outcome = outcome_text d.allowed;
  request_id = [];
  details = of_decision d.port d.reason d.phase;
}

-- The event is written unless an allowed target is only being previewed.
abbrev pub is_audited : Decision → Bool
is_audited d = not (is_preflight d.phase) || not d.allowed

-- ScopeDecision: one transaction; nothing if one of its rows has an identifier that is used.
unfoldable pub scope_decision : PolicyTables → Decision → Option PolicyTables
scope_decision t d =
    if any (decision_id d.id) t.decisions
    then none
    else if is_audited d
    then if any (audit_id t.next_id) t.audit
      then none
      else some (record {
        decisions = t.decisions ++ d ∷ [];
        audit = t.audit ++ decision_event t.next_id d ∷ [];
        next_id = t.next_id + 1;
      })
    else some (record t { decisions = t.decisions ++ d ∷ [] })

-- Audit.
unfoldable pub audit : ℕ → AuditRow → PolicyTables → Option PolicyTables
audit now e t =
    let row = record e {
      id = if e.id == 0 then t.next_id else e.id;
      at = if e.at == 0 then now else e.at;
    } in
    if any (audit_id row.id) t.audit
    then none
    else some (record t {
      audit = t.audit ++ row ∷ [];
      next_id = if e.id == 0 then t.next_id + 1 else t.next_id;
    })

abbrev later_event : AuditRow → AuditRow → Bool
later_event a b = stamp_less b.at a.at

-- ListAudit.
unfoldable pub list_audit : ℕ → PolicyTables → List AuditRow
list_audit limit t = take (page_limit 500 100 limit) (sort_by later_event t.audit)
