-- ===== src/Scope/Expand/Hosts.antt =====
-- internal/scope/engine.go: the hosts that ExpandPrefix lists of an IPv4 prefix.
use native.Mathlib.Nat.{pow-suc}
use native.Mathlib.Numerals.{add-one}
use mathlib.Core.List.{append-nil, append_assoc}
use corta_sentry.Prelude.{
  ℕ, zero, suc, ◌+◌, ◌-◌, ◌*◌, ◌/◌, ◌^◌, ◌≤◌, ◌<◌, ◌≡◌, refl, true, false, List, [], ◌∷◌, ◌++◌,
  length, arith, ok, ltb, ◌==◌, length-append, Bool-cases, inl, inr, ap, sym, ◌∙◌,
}
use corta_sentry.Scope.Address.{Addr, v4, Prefix, addr_eq, contains}
use corta_sentry.Scope.Expand.{next, is_skipped, walk, expand}

-- `n` addresses in a row.
pub hosts : ℕ → ℕ → List Addr
hosts base zero = []
hosts base (suc n) = v4 base ∷ hosts (base + 1) n

div_in : (q m i : ℕ) → i < m → (q * m + i) / m ≡ q
div_in q m i h = grind arith

div_next : (q m : ℕ) → 0 < m → (q * m + m) / m ≡ q + 1
div_next q m h = grind arith

-- The budget admits one more host.
room_in :
    (max : ℕ) (a : Addr) (r : ℕ) (out : List Addr)
    → length out + suc r ≤ max
    → ltb max (length (out ++ a ∷ [])) ≡ false
room_in max a r out l = ground (arith, length-append out (a ∷ []))

module _ (p : Prefix) (max fuel : ℕ) (a : Addr) (out : List Addr) where
  walk_done : contains p a ≡ false → walk p max (suc fuel) a out ≡ ok out
  unfolding walk
  walk_done c = rw (c, walk)

  walk_skip :
      contains p a ≡ true
      → is_skipped p a ≡ true
      → walk p max (suc fuel) a out ≡ walk p max fuel (next a) out
  unfolding walk
  walk_skip c s = ground arith

  walk_keep :
      contains p a ≡ true
      → is_skipped p a ≡ false
      → ltb max (length (out ++ a ∷ [])) ≡ false
      → walk p max (suc fuel) a out ≡ walk p max fuel (next a) (out ++ a ∷ [])
  unfolding walk
  walk_keep c s l = ground arith

pow_pos : (k : ℕ) → 1 ≤ 2 ^ k
pow_pos zero = omega arith
pow_pos (suc k) = rw pow-suc (omega (arith, pow_pos k))

four-le-pow : (k : ℕ) → 2 ≤ k → 4 ≤ 2 ^ k
four-le-pow zero h = absurd (omega arith)
four-le-pow (suc zero) h = absurd (omega arith)
four-le-pow (suc (suc k)) h = rw (pow-suc 2 (suc k), pow-suc 2 k) (omega (arith, pow_pos k))

-- The prefix of `m` addresses from `q * m` on.
abbrev pub network : ℕ → ℕ → ℕ → Prefix
network q m b = record { addr = v4 (q * m); bits = b }

module _ (q m b max : ℕ) (size : m ≡ 2 ^ (32 - b)) (fits : q * m + m ≤ 4294967296) where
  abbrev p : Prefix
  p = network q m b

  contains_in : (n i : ℕ) → n ≡ q * m + i → i < m → contains p (v4 n) ≡ true
  unfolding contains
  contains_in n i eq h =
      let e : (q * m + i) / m ≡ q = div_in q m i h in
      let z : q * m / m ≡ q = grind arith in rw (← size, eq) (ground arith)

  contains_past : (n : ℕ) → 0 < m → n ≡ q * m + m → contains p (v4 n) ≡ false
  unfolding contains
  contains_past n h eq =
      let e : (q * m + m) / m ≡ q + 1 = div_next q m h in
      let z : q * m / m ≡ q = grind arith in rw (← size, eq) (ground arith)

  next_in : (n : ℕ) → n + 1 < 4294967296 → next (v4 n) ≡ v4 (n + 1)
  unfolding next
  next_in n h = ground arith

  contains-next : (n i : ℕ) → n ≡ q * m + i → i + 1 < m → contains p (next (v4 n)) ≡ true
  contains-next n i eq h =
      rw (next_in n (omega arith)) (contains_in (n + 1) (i + 1) (omega arith) h)

  contains_end : (n i : ℕ) → n ≡ q * m + i → i + 1 ≡ m → contains p (next (v4 n)) ≡ false
  unfolding next
  contains_end n i eq h = elim (Bool-cases (n == 4294967295)) [
    | inl e ↦ rw e (unfold contains in refl)
    | inr e ↦ rw e (contains_past (n + 1) (omega arith) (omega arith))
  ]

  skip_last : (n i : ℕ) → n ≡ q * m + i → i + 1 ≡ m → 2 ≤ 32 - b → is_skipped p (v4 n) ≡ true
  skip_last n i eq h t = ground (arith, contains_end n i eq h)

  skip_first : 2 ≤ 32 - b → is_skipped p (v4 (q * m)) ≡ true
  unfolding addr_eq
  skip_first t = ground arith

  keep_inner : (n i : ℕ) → n ≡ q * m + i → 1 ≤ i → i + 1 < m → is_skipped p (v4 n) ≡ false
  unfolding addr_eq
  keep_inner n i eq h l = ground (arith, contains-next n i eq l)

  -- From the `i`th address on, with `r` hosts before the last address.
  walk-hosts :
      (r i n fuel : ℕ) (out : List Addr)
      → n ≡ q * m + i
      → 1 ≤ i
      → i + r + 1 ≡ m
      → r + 2 ≤ fuel
      → length out + r ≤ max
      → 2 ≤ 32 - b
      → walk p max fuel (v4 n) out ≡ ok (out ++ hosts n r)
  unfolding walk hosts
  walk-hosts zero i n (suc (suc fuel)) out eq h e f l t =
      walk_skip p max (suc fuel) (v4 n) out (contains_in n i eq (omega arith))
        (skip_last n i eq (omega arith) t)
      ∙ walk_done p max fuel (next (v4 n)) out (contains_end n i eq (omega arith))
      ∙ ap ok (sym (append-nil out))
  walk-hosts zero i n zero out eq h e f l t = absurd (omega arith)
  walk-hosts zero i n (suc zero) out eq h e f l t = absurd (omega arith)
  walk-hosts (suc r) i n zero out eq h e f l t = absurd (omega arith)
  walk-hosts (suc r) i n (suc fuel) out eq h e f l t =
      walk_keep p max fuel (v4 n) out (contains_in n i eq (omega arith))
        (keep_inner n i eq h (omega arith)) (room_in max (v4 n) r out l)
      ∙ rw (next_in n (omega arith)) (
          walk-hosts r (i + 1) (n + 1) fuel (out ++ v4 n ∷ []) (omega arith) (omega arith)
            (omega arith) (omega arith) (omega (arith, length-append {0} out (v4 n ∷ []))) t)
      ∙ ap ok (append_assoc out (v4 n ∷ []) (hosts (n + 1) r))

  walk_network :
      1 ≤ max
      → 4 ≤ m
      → m ≤ max + 2
      → 2 ≤ 32 - b
      → walk p max (m + 1) (v4 (q * m)) [] ≡ ok (hosts (q * m + 1) (m - 2))
  walk_network h big l t = rw (add-one m) (
      walk_skip p max m (v4 (q * m)) [] (contains_in (q * m) 0 (omega arith) (omega arith))
        (skip_first t)
      ∙ rw (next_in (q * m) (omega arith)) (
          walk-hosts (m - 2) 1 (q * m + 1) m [] (omega arith) (omega arith) (omega arith)
            (omega arith) (omega arith) t))

  -- The expansion of an IPv4 prefix of length 1 to 30 that fits the budget lists every address but
  -- the first and the last, in order.
  pub expand-eq-hosts :
      1 ≤ b → b ≤ 30 → 1 ≤ max → m ≤ max + 2 → expand p max ≡ ok (hosts (q * m + 1) (m - 2))
  unfolding expand
  expand-eq-hosts lo hi h l =
      let big : 4 ≤ m = rw size (four-le-pow (32 - b) (omega arith)) in
      rw (← size) (ground (arith, walk_network h big l (omega arith)))
