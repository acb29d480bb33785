-- ===== src/Tests/Records.antt =====
-- internal/storage/sqlite/store.go: a change that is detected twice, and a decision on record.
use corta_sentry.Prelude.{
  Bool, ◌==◌, list_eq, update_where, ℕ, ◌≡◌, refl, false, none, some, [], ◌∷◌,
}
use corta_sentry.Scope.Engine.{Engine, World, execution, decide}
use corta_sentry.Records.Changes.{ChangeEvent, new_service, add_change, upsert_change, type_code}
use corta_sentry.Records.Policy.{PolicyTables, scope_decision}
use corta_sentry.Records.Occurrences.{
  Calls, carried_out, the_row, add_changes, summary, with_key, add_changes-summary,
}
use corta_sentry.Records.Trail.{IsFresh, recorded, decide_trail}
use corta_sentry.Tests.Codec.{codec}
use corta_sentry.Tests.Scope.{engine, loopback}

abbrev opened : ℕ → ChangeEvent
opened at = record {
  id = 0;
  asset_id = 1;
  type = new_service;
  previous = [];
  current = 80 ∷ [];
  observation_ids = 4 ∷ [];
  detected_at = at;
  first_occurrence = at;
  last_occurrence = at;
  acknowledged = false;
}

abbrev twice : Calls
twice = (1, opened 100) ∷ (2, opened 200) ∷ []

-- Asset 1 is the only one.
abbrev known : ℕ → Bool
known a = a == 1

add_changes-summary_example :
    the_row (opened 300) (add_changes known twice [])
    ≡ summary (with_key (opened 300) (carried_out known twice []))
add_changes-summary_example = add_changes-summary known twice (opened 300)

-- Both calls are carried out.
twice-carried_out : carried_out known twice [] ≡ twice
unfolding carried_out add_change upsert_change list_eq update_where type_code
twice-carried_out = refl

abbrev no_decisions : PolicyTables
no_decisions = record { decisions = []; audit = []; next_id = 1 }

abbrev audited_engine : Engine PolicyTables
audited_engine = record {
  cfg = engine.cfg;
  allow = engine.allow;
  deny = engine.deny;
  allowed_ports = engine.allowed_ports;
  excluded = engine.excluded;
  audit = some scope_decision;
}

abbrev start : World PolicyTables
start = record { store = no_decisions; next_id = 1; clock = 100 }

decide_trail_example :
    let r = decide codec audited_engine start loopback 80 execution in
    (r.0 ≡ (decide codec (record audited_engine { audit = none }) start loopback 80 execution).0)
    × (r.0.id ≡ 1)
    × (r.1.store ≡ recorded no_decisions r.0)
    × IsFresh r.1
decide_trail_example =
    decide_trail audited_engine start refl (record { decisions_below = tt; audit_below = tt }) codec
      loopback 80 execution
