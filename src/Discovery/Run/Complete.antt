-- ===== src/Discovery/Run/Complete.antt =====
-- internal/discovery/scanner.go: how far a run gets, and how it ends.
use corta_sentry.Prelude.{
  ◌⊎◌, true, false, Bool, ◌++◌, [], ◌∷◌, ℕ, ◌+◌, ◌*◌, ◌≤◌, ◌≡◌, refl, Bool, true, List, [], ◌∷◌,
  arith, length, map, length-append,
}
use corta_sentry.Scope.Address.{Addr}
use corta_sentry.Records.Observations.{Observation}
use corta_sentry.Discovery.Probe.{grid}
use corta_sentry.Discovery.Probe.Safety.{probe_bound}
use corta_sentry.Discovery.Result.{ScanResult, counted}
use corta_sentry.Discovery.Ingest.{ingest_batch}
use corta_sentry.Discovery.Ingest.Counts.{IsCounted, as_failed, as_attached, ingest_batch-IsCounted}
use corta_sentry.Discovery.Run.{Surroundings, Run, Scanner, probed, ingested, handle, worker_count}

length-row :
    (a : Addr) (ports : List ℕ)
    → length {A = Addr × ℕ} (map (λ (p : ℕ). (a, p)) ports) ≡ length ports
length-row a [] = refl
length-row a (p ∷ ports) = omega (arith, length-row a ports)

pub length-grid :
    (targets : List Addr) (ports : List ℕ)
    → length (grid targets ports) ≡ length targets * length ports
unfolding grid
length-grid [] ports = omega arith
length-grid (a ∷ targets) ports = grind (
  arith,
  length-append (map (λ (p : ℕ). (a, p)) ports) (grid targets ports),
  length-row a ports,
  length-grid targets ports,
)

-- The observations and errors that a batch of one to three observations adds.
counted_bound :
    (n : ℕ) (r s : ScanResult)
    → IsCounted n r s
    → 1 ≤ n
    → n ≤ 3
    → (r.observations + r.errors + 1 ≤ s.observations + s.errors)
      × (s.observations + s.errors ≤ r.observations + r.errors + 3)
unfolding counted
counted_bound n r s (as_failed e) lo hi = ground arith
counted_bound n r s (as_attached x g k) lo hi = ground arith

module _ {S T : Type 0} (s : Scanner S T) where
  batch-IsCounted :
      (a : Addr) (p : ℕ) (r : Run S T) (b : List Observation)
      → b ≡ (probed s a p r).0
      → 1 ≤ length b
      → IsCounted
          (length b)
          r.result
          (ingest_batch s.deriver s.store
            (probed s a p r).1.world.clock
            s.strong_id
            b
            (r.result, r.records)).0
  batch-IsCounted a p r [] e h = absurd (omega arith)
  batch-IsCounted a p r (o ∷ os) e h =
      ingest_batch-IsCounted s.deriver s.store (probed s a p r).1.world.clock s.strong_id o os
        r.result r.records

  handle_bound :
      (a : Addr) (p : ℕ) (r : Run S T)
      → let r' = handle s a p r in
        (r'.completed ≡ r.completed + 1)
        × (r.result.observations + r.result.errors + 1 ≤ r'.result.observations + r'.result.errors)
        × (r'.result.observations + r'.result.errors ≤ r.result.observations + r.result.errors + 3)
  unfolding handle
  handle_bound a p r =
      let (lo, hi) =
        probe_bound s.codecs s.net s.engine s.wire s.peers s.budget s.job a p r.probing in
      let b = (probed s a p r).0 in
      let (x, y) =
        counted_bound (length b) r.result (ingested s a p r).0 (batch-IsCounted a p r b refl lo) lo
          hi in
      (refl, x, y)

  -- The probes that were handled, one after the other. Each adds one observation to the result at
  -- least, or else one error, and three of both at most.
  pub data Handled : List (Addr × ℕ) → Run S T → Run S T → Type 0 where
    done : {r : Run S T} → Handled [] r r
    next :
        {a : Addr} {p : ℕ} {ps : List (Addr × ℕ)} {r u : Run S T}
        → r.result.observations + r.result.errors + 1
          ≤ (handle s a p r).result.observations + (handle s a p r).result.errors
        → (handle s a p r).result.observations + (handle s a p r).result.errors
          ≤ r.result.observations + r.result.errors + 3
        → Handled ps (handle s a p r) u
        → Handled ((a, p) ∷ ps) r u

  Handled-completed :
      (ps : List (Addr × ℕ)) (r u : Run S T)
      → Handled ps r u
      → u.completed ≡ r.completed + length ps
  Handled-completed [] r u done = omega arith
  Handled-completed ((a, p) ∷ ps) r u (next x y h) =
      omega (arith, (handle_bound a p r).0, Handled-completed ps (handle s a p r) u h)

  module _ (around : Surroundings) where
    -- Why a run stops before its end.
    pub data IsStopped : Type 0 where
      context_ended : (n : ℕ) → around.alive n ≡ false → IsStopped
      report_failed : (n total : ℕ) → around.progress n total ≡ false → IsStopped
      no_worker : s.max_concurrency ≡ 0 → IsStopped

    -- How a run over some probes ended: it handled the first of them, up to a point. All were
    -- handled and there is no error, or something stopped it; and an error is missing only if no
    -- more probes were left than there are workers.
    pub record Ended (total : ℕ) (all : List (Addr × ℕ)) (r : Run S T) (o : Run S T × Bool)
        : Type 0 where
      pub probes : List (Addr × ℕ)
      pub rest : List (Addr × ℕ)
      pub split : all ≡ probes ++ rest
      pub each : Handled probes r o.0
      pub outcome : ((rest ≡ []) × (o.1 ≡ true)) ⊎ IsStopped
      pub honest : (o.1 ≡ false) ⊎ (length rest ≤ worker_count s total)
