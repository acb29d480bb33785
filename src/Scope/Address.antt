-- ===== src/Scope/Address.antt =====
-- Addresses and prefixes, as internal/scope/engine.go uses them (net/netip), and the functions of
-- the engine over them: parsePrefix, NormalizeAddr and isPrivateOrLoopback.
use corta_sentry.Prelude.{
  ℕ, ◌-◌, ◌*◌, ◌/◌, ◌%◌, ◌^◌, ◌≡◌, Bool, true, false, ◌&&◌, ◌||◌, Option, none, some, Result, ok,
  err, Text, trim_space, ltb, ◌==◌, if◌then◌else◌,
}

-- netip.Addr: the zero value, an IPv4 address, an IPv6 address with its zone (0 for no zone).
pub data Addr : Type 0 where
  invalid : Addr
  v4 : ℕ → Addr
  v6 : ℕ → ℕ → Addr

-- netip.Prefix.
pub record Prefix : Type 0 where
  pub addr : Addr
  pub bits : ℕ

abbrev pub is_4in6 : Addr → Bool
is_4in6 (v6 n z) = n / 2 ^ 32 == 0xffff
is_4in6 _ = false

-- Addr.Unmap.
unfoldable pub unmap : Addr → Addr
unmap (v6 n z) = if n / 2 ^ 32 == 0xffff then v4 (n % 2 ^ 32) else v6 n z
unmap a = a

abbrev pub is_v4 : Addr → Bool
is_v4 (v4 n) = true
is_v4 _ = false

-- Addr.BitLen.
abbrev pub bit_len : Addr → ℕ
bit_len invalid = 0
bit_len (v4 n) = 32
bit_len (v6 n z) = 128

unfoldable pub addr_eq : Addr → Addr → Bool
addr_eq invalid invalid = true
addr_eq (v4 n) (v4 m) = n == m
addr_eq (v6 n z) (v6 m y) = n == m && z == y
addr_eq _ _ = false

-- Addr.Less: by width, then by value, then by zone.
unfoldable pub addr_less : Addr → Addr → Bool
addr_less invalid invalid = false
addr_less invalid _ = true
addr_less (v4 n) invalid = false
addr_less (v4 n) (v4 m) = ltb n m
addr_less (v4 n) (v6 m z) = true
addr_less (v6 n z) (v6 m y) = ltb n m || (n == m && ltb z y)
addr_less (v6 n z) _ = false

unfoldable pub is_unspecified : Addr → Bool
is_unspecified (v4 n) = n == 0
is_unspecified (v6 n z) = n == 0 && z == 0
is_unspecified invalid = false

unfoldable pub is_multicast : Addr → Bool
is_multicast (v4 n) = n / 2 ^ 28 == 0xe
is_multicast (v6 n z) = n / 2 ^ 120 == 0xff
is_multicast invalid = false

unfoldable pub is_private : Addr → Bool
is_private (v4 n) = n / 2 ^ 24 == 10 || n / 2 ^ 20 == 0xac1 || n / 2 ^ 16 == 0xc0a8
is_private (v6 n z) = n / 2 ^ 121 == 0x7e
is_private invalid = false

unfoldable pub is_loopback : Addr → Bool
is_loopback (v4 n) = n / 2 ^ 24 == 127
is_loopback (v6 n z) = n == 1
is_loopback invalid = false

unfoldable pub is_link_local : Addr → Bool
is_link_local (v4 n) = n / 2 ^ 16 == 0xa9fe
is_link_local (v6 n z) = n / 2 ^ 118 == 0x3fa
is_link_local invalid = false

-- isPrivateOrLoopback.
unfoldable pub is_private_or_loopback : Addr → Bool
is_private_or_loopback a = is_private a || is_loopback a || is_link_local a

-- 255.255.255.255
unfoldable pub is_broadcast : Addr → Bool
unfolding addr_eq
is_broadcast a = is_v4 a && addr_eq a (v4 0xffffffff)

-- Prefix.Contains: the same family, no zone, and the same leading bits.
abbrev pub same_network : ℕ → Addr → Addr → Bool
same_network b (v4 n) (v4 m) = n / 2 ^ (32 - b) == m / 2 ^ (32 - b)
same_network b (v6 n z) (v6 m y) = y == 0 && n / 2 ^ (128 - b) == m / 2 ^ (128 - b)
same_network b _ _ = false

unfoldable pub contains : Prefix → Addr → Bool
contains p a = same_network p.bits p.addr a

-- netip.PrefixFrom(a, bits).Masked(): the host bits are cleared.
unfoldable pub mask : Addr → ℕ → Prefix
mask (v4 n) b = record { addr = v4 (n / 2 ^ (32 - b) * 2 ^ (32 - b)); bits = b }
mask (v6 n z) b = record { addr = v6 (n / 2 ^ (128 - b) * 2 ^ (128 - b)) 0; bits = b }
mask invalid b = record { addr = invalid; bits = b }

-- The textual forms of net/netip, and what the engine relies on: an address that was read from a
-- text prints, once unmapped, as a text with no space at its ends that reads as the same address.
pub record NetText : Type 0 where
  pub parse_addr : Text → Option Addr
  pub parse_prefix : Text → Option Prefix
  pub show : Addr → Text
  pub parse-show :
      (s : Text) (a : Addr)
      → parse_addr s ≡ some a
      → parse_addr (trim_space (show (unmap a))) ≡ some (unmap a)

pub data PrefixError : Type 0 where
  invalid_prefix mapped_too_broad : PrefixError

module _ (net : NetText) where
  -- parsePrefix.
  unfoldable pub parse_prefix : Text → Result PrefixError Prefix
  unfolding mask unmap
  parse_prefix s = elim (net.parse_prefix (trim_space s)) [
    | none ↦ err invalid_prefix
    | some p ↦
        if is_4in6 p.addr
        then (if ltb p.bits 96
            then err mapped_too_broad
            else ok (mask (unmap p.addr) (p.bits - 96)))
        else ok (mask (unmap p.addr) p.bits)
  ]

  -- NormalizeAddr.
  unfoldable pub normalize_addr : Text → Option Addr
  normalize_addr s = elim (net.parse_addr (trim_space s)) [ none ↦ none | some a ↦ some (unmap a) ]
