-- ===== src/Scope/Validate.antt =====
-- internal/scope/engine.go: what a job that ValidateJob accepts guarantees.
use corta_sentry.Prelude.{
  ℕ, ◌≤◌, ◌≡◌, ap, ◌∙◌, true, false, ◌||◌, none, some, List, [], ◌∷◌, ◌++◌, length, ok, Text,
  trim_space, ltb, ◌==◌, elem, dedupe, sort_by, arith, inl, inr, Bool-cases, Option-cases,
  Result-cases, subst, All, All-append, All-mono, All-sort_by, IsDistinct, IsSorted,
  dedupe-IsDistinct, sort_by-IsSorted, sort_by-IsDistinct, length-sort_by, Result-cases,
}
use corta_sentry.Prelude.Sorting.{snoc-IsDistinct}
use corta_sentry.Scope.Address.{Addr, NetText, normalize_addr, addr_eq, addr_less, unmap}
use corta_sentry.Scope.Engine.{Engine, World, preflight, decide}
use corta_sentry.Scope.Decide.{IsAuthorized, decide-IsAuthorized}
use corta_sentry.Scope.Job.{collect_addrs, check_ports, check_targets, validate_job}

unmap_idem : (a : Addr) → unmap (unmap a) ≡ unmap a
unfolding unmap
unmap_idem a = ground arith

addr_eq_symm : (a b : Addr) → addr_eq a b ≡ addr_eq b a
unfolding addr_eq
addr_eq_symm a b = ground arith

addr_less_asymm : (a b : Addr) → addr_less a b ≡ true → addr_less b a ≡ false
unfolding addr_less
addr_less_asymm a b h = ground arith

num_eq_symm : (a b : ℕ) → (a == b) ≡ (b == a)
num_eq_symm a b = ground arith

ltb_asymm : (a b : ℕ) → ltb a b ≡ true → ltb b a ≡ false
ltb_asymm a b h = ground arith

module _ (net : NetText) where
  -- The address prints as a text that the engine reads as the same address.
  abbrev pub Reads : Addr → Type 0
  Reads a = normalize_addr net (net.show a) ≡ some a

  normalize_addr-some :
      (t : Text) (b : Addr)
      → net.parse_addr (trim_space t) ≡ some b
      → normalize_addr net t ≡ some (unmap b)
  unfolding normalize_addr
  normalize_addr-some t b s = rw (s, normalize_addr)

  normalize_addr-none :
      (t : Text) → net.parse_addr (trim_space t) ≡ none → normalize_addr net t ≡ none
  unfolding normalize_addr
  normalize_addr-none t s = rw (s, normalize_addr)

  normalize_addr-Reads : (t : Text) (a : Addr) → normalize_addr net t ≡ some a → Reads a
  normalize_addr-Reads t a h = elim (Option-cases (net.parse_addr (trim_space t))) [
    | inl n ↦ cc (normalize_addr-none t n)
    | inr (b, s) ↦
        let q : unmap b ≡ a = cc (normalize_addr-some t b s) in
        rw (← q) (
          normalize_addr-some (net.show (unmap b)) (unmap b) (net.parse-show (trim_space t) b s)
          ∙ ap some (unmap_idem b))
  ]

  collect_addrs_lem :
      (out : List Addr) (ts : List Text) {aa : List Addr}
      → collect_addrs net out ts ≡ ok aa
      → All Reads out
      → IsDistinct addr_eq out
      → All Reads aa × IsDistinct addr_eq aa
  unfolding collect_addrs
  collect_addrs_lem out [] {aa} h r d = let q : out ≡ aa = cc in rw (← q) (r, d)
  collect_addrs_lem out (t ∷ ts) h r d = elim (Option-cases (normalize_addr net t)) [
    | inl n ↦ ground arith
    | inr (a, n) ↦ elim (Bool-cases (elem addr_eq a out)) [
      | inl old ↦ collect_addrs_lem out ts (rw (n, old, collect_addrs) at h) r d
      | inr new ↦
          collect_addrs_lem (out ++ a ∷ []) ts (rw (n, new, collect_addrs) at h)
            (All-append Reads out (a ∷ []) r (normalize_addr-Reads t a n, tt))
            (snoc-IsDistinct addr_eq addr_eq_symm a out new d)
    ]
  ]

module _ (net : NetText) {S : Type 0} (e : Engine S) where
  check_ports-IsAuthorized :
      (w : World S) (a : Addr) (ps : List ℕ)
      → Reads net a
      → (check_ports net e w a ps).0 ≡ ok tt
      → All (IsAuthorized e a) ps
  unfolding check_ports
  check_ports-IsAuthorized w a [] r h = tt
  check_ports-IsAuthorized w a (p ∷ ps) r h =
      let d = decide net e w (net.show a) p preflight in
      elim (Bool-cases d.0.allowed) [
        | inl y ↦
            let (b, n, good) = decide-IsAuthorized net e w (net.show a) p preflight y in
            let q : b ≡ a = cc in
            (
              subst (λ x. IsAuthorized e x p) q good,
              check_ports-IsAuthorized d.1 a ps r (rw (y, check_ports) at h),
            )
        | inr n ↦ ground arith
      ]

  check_targets-IsAuthorized :
      (w : World S) (aa : List Addr) (ps : List ℕ)
      → All (Reads net) aa
      → (check_targets net e w aa ps).0 ≡ ok tt
      → All (λ a. All (IsAuthorized e a) ps) aa
  unfolding check_targets
  check_targets-IsAuthorized w [] ps r h = tt
  check_targets-IsAuthorized w (a ∷ aa) ps r h = elim (Result-cases (check_ports net e w a ps).0) [
    | inl (u, y) ↦ (
      check_ports-IsAuthorized w a ps r.0 y,
      check_targets-IsAuthorized (check_ports net e w a ps).1 aa ps r.1
          (rw (y, check_targets) at h),
    )
    | inr (x, n) ↦ ground arith
  ]

  -- What a job must satisfy to be run.
  pub record IsValidJob (aa : List Addr) (pp : List ℕ) : Type 0 where
    pub authorized : All (λ a. All (IsAuthorized e a) pp) aa
    pub distinct_targets : IsDistinct addr_eq aa
    pub distinct_ports : IsDistinct ◌==◌ pp
    pub sorted_targets : IsSorted addr_less aa
    pub sorted_ports : IsSorted ltb pp
    pub host_budget : length aa ≤ e.cfg.max_hosts_per_job
    pub port_budget : length pp ≤ e.cfg.max_ports_per_host

  sorted_job-IsValidJob :
      (w : World S) (aa : List Addr) (pp : List ℕ)
      → All (Reads net) aa
      → IsDistinct addr_eq aa
      → IsDistinct ◌==◌ pp
      → (ltb e.cfg.max_hosts_per_job (length aa) || ltb e.cfg.max_ports_per_host (length pp))
        ≡ false
      → (check_targets net e w aa pp).0 ≡ ok tt
      → IsValidJob (sort_by addr_less aa) (sort_by ltb pp)
  sorted_job-IsValidJob w aa pp r da dp small h = record {
    authorized =
        All-mono (λ a. All (IsAuthorized e a) pp) _ (λ a. All-sort_by ltb (IsAuthorized e a) pp) _
          (All-sort_by addr_less (λ a. All (IsAuthorized e a) pp) aa
            (check_targets-IsAuthorized w aa pp r h));
    distinct_targets = sort_by-IsDistinct addr_less addr_eq addr_eq_symm aa da;
    distinct_ports = sort_by-IsDistinct ltb ◌==◌ num_eq_symm pp dp;
    sorted_targets = sort_by-IsSorted addr_less addr_less_asymm aa;
    sorted_ports = sort_by-IsSorted ltb ltb_asymm pp;
    host_budget = rw (length-sort_by addr_less aa) (ground arith);
    port_budget = rw (length-sort_by ltb pp) (ground arith);
  }

  validate_job_inverse :
      (w : World S) (targets : List Text) (ports : List ℕ) {aa : List Addr} {pp : List ℕ}
      → (validate_job net e w targets ports).0 ≡ ok (aa, pp)
      → (raw : List Addr) × (collect_addrs net [] targets ≡ ok raw)
        × ((ltb e.cfg.max_hosts_per_job (length raw)
              || ltb e.cfg.max_ports_per_host (length (dedupe ◌==◌ [] ports)))
            ≡ false)
        × ((check_targets net e w raw (dedupe ◌==◌ [] ports)).0 ≡ ok tt)
        × (sort_by addr_less raw ≡ aa)
        × (sort_by ltb (dedupe ◌==◌ [] ports) ≡ pp)
  unfolding validate_job
  validate_job_inverse w targets ports {aa} {pp} h =
      elim (Result-cases (collect_addrs net [] targets)) [
        | inr (x, n) ↦ absurd (ground arith)
        | inl (raw, y) ↦ (raw, y, ground arith, ground arith, ground arith, ground arith)
      ]

  -- A job that validation accepts names only authorised probes, no target or port twice, both in
  -- ascending order, and within the two budgets.
  pub validate_job-IsValidJob :
      (w : World S) (targets : List Text) (ports : List ℕ) {aa : List Addr} {pp : List ℕ}
      → (validate_job net e w targets ports).0 ≡ ok (aa, pp)
      → IsValidJob aa pp
  validate_job-IsValidJob w targets ports {aa} {pp} h =
      let (raw, y, small, passed, qa, qp) = validate_job_inverse w targets ports h in
      let (r, da) = collect_addrs_lem net [] targets y tt tt in
      rw (← qa, ← qp)
        (sorted_job-IsValidJob w raw (dedupe ◌==◌ [] ports) r da
          (dedupe-IsDistinct ◌==◌ num_eq_symm [] ports tt) small passed)
