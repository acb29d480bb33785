-- ===== src/Discovery/Run/Safety.antt =====
-- internal/discovery/scanner.go: what a run connects to.
use corta_sentry.Prelude.{
  ◌==◌, ℕ, ◌*◌, ◌≡◌, refl, List, [], ◌∷◌, ◌++◌, Memᴰ, inl, inr, Bool-cases, All, All-mono,
  All-append, length, map, ap, sym, subst,
}
use corta_sentry.Scope.Address.{Addr}
use corta_sentry.Scope.Engine.{Decision}
use corta_sentry.Discovery.Dialer.{Probing}
use corta_sentry.Discovery.Dialer.Safety.{IsAllowed}
use corta_sentry.Discovery.Probe.{grid}
use corta_sentry.Discovery.Probe.Safety.{
  Attempts, Follows, Follows-refl, Follows-trans, IsAimed, probe-Aims,
}
use corta_sentry.Discovery.Result.{no_result}
use corta_sentry.Discovery.Run.{
  worker_count, Surroundings, Run, Scanner, handle, run_probes, run_with_progress,
}

mem_map :
    (a : Addr) (ports : List ℕ) (x : Addr × ℕ)
    → Memᴰ x (map (λ (p : ℕ). (a, p)) ports)
    → (x.0 ≡ a) × Memᴰ x.1 ports
mem_map a [] x m = elim m [ ]
mem_map a (p ∷ ports) x (Memᴰ.head e) =
    (ap (λ (y : Addr × ℕ). y.0) e, Memᴰ.head (ap (λ (y : Addr × ℕ). y.1) e))
mem_map a (p ∷ ports) x (Memᴰ.tail m) = let (e, k) = mem_map a ports x m in (e, Memᴰ.tail k)

-- A probe of the grid is of one of the targets, at one of the ports.
abbrev pub InGrid : List Addr → List ℕ → Addr × ℕ → Type 0
InGrid targets ports x = Memᴰ x.0 targets × Memᴰ x.1 ports

row-InGrid :
    (a : Addr) (targets : List Addr) (all ports : List ℕ)
    → ((p : ℕ) → Memᴰ p ports → Memᴰ p all)
    → All (InGrid (a ∷ targets) all) (map (λ (p : ℕ). (a, p)) ports)
row-InGrid a targets all [] sub = tt
row-InGrid a targets all (p ∷ ports) sub = (
  (Memᴰ.head refl, sub p (Memᴰ.head refl)),
  row-InGrid a targets all ports (λ q m. sub q (Memᴰ.tail m)),
)

pub grid-InGrid :
    (targets : List Addr) (ports : List ℕ) → All (InGrid targets ports) (grid targets ports)
unfolding grid
grid-InGrid [] ports = tt
grid-InGrid (a ∷ targets) ports =
    All-append (InGrid (a ∷ targets) ports) (map (λ (p : ℕ). (a, p)) ports) (grid targets ports)
      (row-InGrid a targets ports ports (λ p m. m))
      (All-mono (InGrid targets ports) (InGrid (a ∷ targets) ports)
        (λ (x : Addr × ℕ) (h : InGrid targets ports x). (Memᴰ.tail h.0, h.1)) (grid targets ports)
        (grid-InGrid targets ports))

module _ {S T : Type 0} (s : Scanner S T) (targets : List Addr) (ports : List ℕ) where
  -- An attempt to one of the targets at one of the ports, which the policy allows.
  pub record IsListed (at : Addr × ℕ × Decision) : Type 0 where
    pub address : Memᴰ at.0 targets
    pub port : Memᴰ at.1 ports
    pub allowed : IsAllowed s.net s.engine at

  abbrev Lists : Probing S → Probing S → Type 0
  Lists = Follows s.net s.engine IsListed

  handle-Lists :
      (a : Addr) (p : ℕ) (r : Run S T)
      → InGrid targets ports (a, p)
      → Lists r.probing (handle s a p r).probing
  unfolding handle
  handle-Lists a p r h =
      let (new, e, k) =
        probe-Aims s.codecs s.net s.engine s.wire s.peers s.budget s.job a p r.probing in
      (
        new,
        e,
        All-mono (IsAimed s.net s.engine a p) IsListed
            (λ (x : Addr × ℕ × Decision) (q : IsAimed s.net s.engine a p x). record {
              address = subst (λ (y : Addr). Memᴰ y targets) (sym q.address) h.0;
              port = subst (λ (y : ℕ). Memᴰ y ports) (sym q.port) h.1;
              allowed = q.allowed;
            })
            new k,
      )

  module _ (around : Surroundings) (total : ℕ) where
    run_probes-Lists :
        (ps : List (Addr × ℕ)) (r : Run S T)
        → All (InGrid targets ports) ps
        → Lists r.probing (run_probes s around total ps r).0.probing
    unfolding run_probes
    run_probes-Lists [] r h = Follows-refl s.net s.engine IsListed r.probing
    run_probes-Lists ((a, p) ∷ ps) r h =
        let r' = handle s a p r in
        let f = handle-Lists a p r h.0 in
        elim (Bool-cases (around.alive r.completed)) [
          | inr n ↦ rw (n, run_probes) (Follows-refl s.net s.engine IsListed r.probing)
          | inl y ↦ elim (Bool-cases (around.progress r'.completed total)) [
            | inr n ↦ rw (y, n, run_probes) f
            | inl g ↦
                rw (y, g, run_probes)
                  (Follows-trans s.net s.engine IsListed r.probing r'.probing
                    (run_probes s around total ps r').0.probing f (run_probes-Lists ps r' h.1))
          ]
        ]

  -- Every connection that a run attempts, whatever the network, the peers, the store and the
  -- context do, goes to one of its targets at one of its ports, was allowed by the decision made
  -- for it, and is covered by the scope policy.
  pub run_with_progress-IsListed :
      (around : Surroundings) (st : Probing S) (t : T)
      → (new : Attempts) × ((run_with_progress s around targets ports st t).0.probing.dialed
          ≡ new ++ st.dialed)
        × All IsListed new
  unfolding run_with_progress
  run_with_progress-IsListed around st t =
      let total = length targets * length ports in
      let start : Run S T = record {
        probing = st;
        result = no_result;
        records = t;
        completed = 0;
      } in
      elim (Bool-cases (worker_count s total == 0)) [
        | inl y ↦ rw (y, run_with_progress) (Follows-refl s.net s.engine IsListed st)
        | inr n ↦
            rw (n, run_with_progress)
              (run_probes-Lists around total (grid targets ports) start (grid-InGrid targets ports))
      ]
