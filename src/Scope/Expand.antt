-- ===== src/Scope/Expand.antt =====
-- internal/scope/engine.go: ExpandPrefix.
pub mod Hosts
use corta_sentry.Prelude.{
  ℕ, zero, suc, ◌+◌, ◌-◌, ◌^◌, Bool, true, false, ◌&&◌, ◌||◌, not, List, [], ◌∷◌, ◌++◌, map, length,
  Result, ok, err, ◌>>=◌, Text, ltb, leb, ◌==◌, if◌then◌else◌,
}
use corta_sentry.Scope.Address.{
  Addr, invalid, v4, v6, Prefix, NetText, PrefixError, parse_prefix, addr_eq, is_v4, bit_len,
  is_unspecified, contains,
}

pub data ExpandError : Type 0 where
  bad_raw : PrefixError → ExpandError
  budget_not_positive default_route too_large out_of_fuel : ExpandError

-- Addr.Next: past the last address comes the zero value.
unfoldable pub next : Addr → Addr
next invalid = invalid
next (v4 n) = if n == 0xffffffff then invalid else v4 (n + 1)
next (v6 n z) = if n == 2 ^ 128 - 1 then invalid else v6 (n + 1) z

-- `p.Addr().Is4() && hostBits >= 2 && (first || last)`
abbrev pub is_skipped : Prefix → Addr → Bool
is_skipped p a =
    is_v4 p.addr
    && leb 2 (bit_len p.addr - p.bits)
    && (addr_eq a p.addr || not (contains p (next a)))

-- The loop over the addresses of the prefix. It ends when the address leaves the prefix.
unfoldable pub walk : Prefix → ℕ → ℕ → Addr → List Addr → Result ExpandError (List Addr)
walk p max zero a out = err out_of_fuel
walk p max (suc fuel) a out = elim (contains p a) [
  | false ↦ ok out
  | true ↦ elim (is_skipped p a) [
    | true ↦ walk p max fuel (next a) out
    | false ↦ elim (ltb max (length (out ++ a ∷ []))) [
      | true ↦ err too_large
      | false ↦ walk p max fuel (next a) (out ++ a ∷ [])
    ]
  ]
]

-- ExpandPrefix on a prefix that parsed. The fuel is one round more than the prefix has addresses.
unfoldable pub expand : Prefix → ℕ → Result ExpandError (List Addr)
unfolding walk
expand p max =
    if ltb max 1
    then err budget_not_positive
    else if is_unspecified p.addr && p.bits == 0
    then err default_route
    else let host_bits = bit_len p.addr - p.bits in
      if leb 63 host_bits || ltb (max + 2) (2 ^ host_bits)
      then err too_large
      else walk p max (2 ^ host_bits + 1) p.addr []

-- ExpandPrefix.
unfoldable pub expand_prefix : NetText → Text → ℕ → Result ExpandError (List Text)
unfolding expand
expand_prefix net raw max = elim (parse_prefix net raw) [
  | err e ↦ err (bad_raw e)
  | ok p ↦ expand p max >>= λ hosts. ok (map net.show hosts)
]
