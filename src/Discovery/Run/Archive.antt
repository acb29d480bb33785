-- ===== src/Discovery/Run/Archive.antt =====
-- internal/discovery/scanner.go: what a run leaves in the archive of observations.
use mathlib.Core.List.{append-nil, append_assoc}
use corta_sentry.Prelude.{
  ◌==◌, ℕ, ◌+◌, ◌*◌, ◌≤◌, ◌≡◌, refl, sym, ap, ◌∙◌, none, some, List, [], ◌∷◌, ◌++◌, arith, length,
  length-append, Option-cases, Bool-cases, inl, inr, ◌⊎◌, Text,
}
use corta_sentry.Scope.Address.{Addr}
use corta_sentry.Records.Observations.{Observation}
use corta_sentry.Discovery.Dialer.{Probing}
use corta_sentry.Discovery.Store.{ScanStore}
use corta_sentry.Discovery.Result.{ScanResult, Deriver, counted, no_result}
use corta_sentry.Discovery.Ingest.{add_all, ingest_stored, ingest_batch}
use corta_sentry.Discovery.Ingest.Counts.{IsCounted, as_failed, as_attached, stored-IsCounted}
use corta_sentry.Discovery.Ingest.Archive.{IsArchive, ingest_stored-stored}
use corta_sentry.Discovery.Probe.{grid}
use corta_sentry.Discovery.Run.{
  Surroundings, Run, Scanner, probed, handle, run_probes, run_with_progress, worker_count,
}

counted_observations :
    (n : ℕ) (r s : ScanResult) → IsCounted n r s → s.observations ≤ r.observations + n
unfolding counted
counted_observations n r s (as_failed e) = ground arith
counted_observations n r s (as_attached x g k) = ground arith

module _ {T : Type 0} (stored : T → List Observation) where
  -- The rows of one archive are those of another with new ones at the end, and a result counts no
  -- more observations than these.
  abbrev pub Appends : ScanResult × T → ScanResult × T → Type 0
  Appends st u =
      (new : List Observation) × (stored u.1 ≡ stored st.1 ++ new)
      × (u.0.observations ≤ st.0.observations + length new)

  Appends-refl : (st : ScanResult × T) → Appends st st
  Appends-refl st = ([], sym (append-nil (stored st.1)), omega arith)

  Appends-trans : (st u v : ScanResult × T) → Appends st u → Appends u v → Appends st v
  Appends-trans st u v (n, e, b) (m, f, c) =
      let l = length-append n m in
      (
        n ++ m,
        f ∙ ap (λ (l : List Observation). l ++ m) e ∙ append_assoc (stored st.1) n m,
        omega (arith, b, c, l),
      )

  module _ (d : Deriver) (store : ScanStore T) (laws : IsArchive store stored) (now : ℕ) where
    add_all-Adds :
        (os : List Observation) (t : T)
        → let a = add_all d store now os t in
          (new : List Observation) × (stored a.1 ≡ stored t ++ new)
          × ((a.0 ≡ none) ⊎ (a.0 ≡ some new))
    unfolding add_all
    add_all-Adds [] t = ([], sym (append-nil (stored t)), inr refl)
    add_all-Adds (o ∷ os) t = elim (Option-cases (store.add_observation o t)) [
      | inl n ↦ rw (n, add_all) ([], sym (append-nil (stored t)), inl refl)
      | inr ((row, u), e) ↦
          let (new, f, c) = add_all-Adds os u in
          rw (e, add_all)
            (
              row ∷ new,
              f
                  ∙ ap (λ (l : List Observation). l ++ new) (laws.adds o row t u e)
                  ∙ append_assoc (stored t) (row ∷ []) new,
              elim c [ inl z ↦ inl (rw z refl) | inr s ↦ inr (rw s refl) ],
            )
    ]

    stored_count :
        (strong_id : Text) (os : List Observation) (r : ScanResult) (t : T)
        → (ingest_stored d store now strong_id os (r, t)).0.observations
          ≤ r.observations + length os
    unfolding ingest_stored
    stored_count strong_id [] r t = omega arith
    stored_count strong_id (o ∷ os) r t =
        counted_observations (length (o ∷ os)) r _ (stored-IsCounted d store now strong_id o os r t)

    batch-Appends :
        (strong_id : Text) (os : List Observation) (st : ScanResult × T)
        → Appends st (ingest_batch d store now strong_id os st)
    unfolding ingest_batch
    batch-Appends strong_id os (r, t) =
        let a = add_all d store now os t in
        let (new, f, c) = add_all-Adds os t in
        elim c [
          | inl z ↦ rw (z, ingest_batch) (new, f, omega arith)
          | inr s ↦
              rw (s, ingest_batch)
                (
                  new,
                  ingest_stored-stored d store stored laws now strong_id new (r, a.1) ∙ f,
                  stored_count strong_id new r a.1,
                )
        ]

module _ {S T : Type 0} (s : Scanner S T) (stored : T → List Observation)
    (laws : IsArchive s.store stored) where
  abbrev kept : Run S T → ScanResult × T
  kept r = (r.result, r.records)

  handle-Appends :
      (a : Addr) (p : ℕ) (r : Run S T) → Appends stored (kept r) (kept (handle s a p r))
  unfolding handle
  handle-Appends a p r =
      let b = probed s a p r in
      batch-Appends stored s.deriver s.store laws b.1.world.clock s.strong_id b.0 (kept r)

  module _ (around : Surroundings) (total : ℕ) where
    run_probes-Appends :
        (ps : List (Addr × ℕ)) (r : Run S T)
        → Appends stored (kept r) (kept (run_probes s around total ps r).0)
    unfolding run_probes
    run_probes-Appends [] r = Appends-refl stored (kept r)
    run_probes-Appends ((a, p) ∷ ps) r =
        let r' = handle s a p r in
        let f = handle-Appends a p r in
        elim (Bool-cases (around.alive r.completed)) [
          | inr n ↦ rw (n, run_probes) (Appends-refl stored (kept r))
          | inl y ↦ elim (Bool-cases (around.progress r'.completed total)) [
            | inr n ↦ rw (y, n, run_probes) f
            | inl g ↦
                rw (y, g, run_probes)
                  (Appends-trans stored (kept r) (kept r')
                    (kept (run_probes s around total ps r').0) f (run_probes-Appends ps r'))
          ]
        ]

  -- Whatever the network, the peers and the context do, a run on a store that keeps an archive
  -- appends rows of observations and changes none that was there, and its result counts no more
  -- observations than it appended.
  pub run_with_progress-Appends :
      (around : Surroundings) (targets : List Addr) (ports : List ℕ) (st : Probing S) (t : T)
      → let r = (run_with_progress s around targets ports st t).0 in
        Appends stored (no_result, t) (r.result, r.records)
  unfolding run_with_progress
  run_with_progress-Appends around targets ports st t =
      let total = length targets * length ports in
      let start : Run S T = record {
        probing = st;
        result = no_result;
        records = t;
        completed = 0;
      } in
      elim (Bool-cases (worker_count s total == 0)) [
        | inl y ↦ rw (y, run_with_progress) (Appends-refl stored (no_result, t))
        | inr n ↦
            rw (n, run_with_progress) (run_probes-Appends around total (grid targets ports) start)
      ]
