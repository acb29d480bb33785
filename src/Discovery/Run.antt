-- ===== src/Discovery/Run.antt =====
-- internal/discovery/scanner.go: RunWithProgress. The workers take turns: the probes are taken in the
-- order of the grid, and each is ingested before the next. Whether the context is still alive, whether
-- a report of progress succeeds, are parameters, read at the number of probes done; so is the case of
-- the select that is taken when the context has ended while a worker is ready, read at the number of
-- probes to send after that.
pub mod Safety
pub mod Complete
pub mod Archive
use corta_sentry.Prelude.{
  ltb, ◌==◌, zero, suc, ◌-◌, ℕ, ◌+◌, ◌*◌, Bool, true, false, not, Option, none, some, List, [], ◌∷◌,
  ◌++◌, if◌then◌else◌, length, Text,
}
use corta_sentry.Scope.Address.{Addr, NetText}
use corta_sentry.Scope.Engine.{Engine}
use corta_sentry.Discovery.Dialer.{Network, Probing}
use corta_sentry.Discovery.Collect.{Peers, Codecs, Budget}
use corta_sentry.Discovery.Probe.{grid, probe}
use corta_sentry.Discovery.Store.{ScanStore}
use corta_sentry.Discovery.Result.{ScanResult, Deriver, no_result}
use corta_sentry.Discovery.Ingest.{ingest_batch}

-- What surrounds a run: the context, the select on its end, and the callback for progress.
pub record Surroundings : Type 0 where
  pub ends_at_select : ℕ → Bool
  pub alive : ℕ → Bool
  pub progress : ℕ → ℕ → Bool

-- A run so far: the dialer, the result, the store, and the probes handled.
pub record Run (S T : Type 0) : Type 0 where
  pub probing : Probing S
  pub result : ScanResult
  pub records : T
  pub completed : ℕ

-- What a scanner is built from, and the job that it works for.
pub record Scanner (S T : Type 0) : Type 0 where
  pub codecs : Codecs
  pub net : NetText
  pub engine : Engine S
  pub wire : Network
  pub peers : Peers
  pub budget : Budget
  pub job : ℕ
  pub deriver : Deriver
  pub store : ScanStore T
  pub strong_id : Text
  pub max_concurrency : ℕ

-- Whether the loop still ends without an error once the context has ended, with some workers left and
-- some probes to send. A worker that takes a probe then drops it and stops, and with none left the
-- select can only take the end of the context.
unfoldable pub drained : Surroundings → ℕ → List (Addr × ℕ) → Bool
drained around w [] = true
drained around zero (p ∷ ps) = false
drained around (suc w) (p ∷ ps) =
    let rest = drained around w ps in if around.ends_at_select (length ps) then false else rest

module _ {S T : Type 0} (s : Scanner S T) where
  abbrev pub probed :
      Addr → ℕ → Run S T → List corta_sentry.Records.Observations.Observation × Probing S
  probed a p r = probe s.codecs s.net s.engine s.wire s.peers s.budget s.job a p r.probing

  abbrev pub ingested : Addr → ℕ → Run S T → ScanResult × T
  ingested a p r =
      let b = probed a p r in
      ingest_batch s.deriver s.store b.1.world.clock s.strong_id b.0 (r.result, r.records)

  -- What the worker does with one probe.
  unfoldable pub handle : Addr → ℕ → Run S T → Run S T
  handle a p r = record {
    probing = (probed a p r).1;
    result = (ingested a p r).0;
    records = (ingested a p r).1;
    completed = r.completed + 1;
  }

  abbrev pub worker_count : ℕ → ℕ
  worker_count total = if ltb total s.max_concurrency then total else s.max_concurrency

  module _ (around : Surroundings) (total : ℕ) where
    -- The loop over the probes, and whether it ended without an error. A worker that the end of the
    -- context or a failed report stops takes no other probe.
    unfoldable pub run_probes : List (Addr × ℕ) → Run S T → Run S T × Bool
    unfolding handle drained
    run_probes [] r = (r, true)
    run_probes ((a, p) ∷ ps) r =
        let r' = handle a p r in
        let rest = run_probes ps r' in
        if not (around.alive r.completed)
        then (r, drained around (worker_count total) ((a, p) ∷ ps))
        else if around.progress r'.completed total
        then rest
        else (r', drained around (worker_count total - 1) ps)

  -- RunWithProgress. Without a worker nothing is sent until the context ends, unless there is nothing
  -- to send.
  unfoldable pub run_with_progress :
      Surroundings → List Addr → List ℕ → Probing S → T → Run S T × Bool
  unfolding run_probes drained
  run_with_progress around targets ports st t =
      let start : Run S T = record {
        probing = st;
        result = no_result;
        records = t;
        completed = 0;
      } in
      if worker_count (length targets * length ports) == 0
      then (start, drained around 0 (grid targets ports))
      else run_probes around (length targets * length ports) (grid targets ports) start
