-- ===== src/Tests/Codec.antt =====
-- A text form of addresses that meets what the engine relies on: '4' or '6', and the number in
-- unary, the zone after it.
use corta_sentry.Prelude.{
  ℕ, zero, suc, ◌≡◌, refl, ap, Bool, true, false, Option, none, some, [], ◌∷◌, ◌++◌, arith, ◌==◌,
  if◌then◌else◌, All-append, Text, trim_space-NoSpace, NoSpace,
}
use corta_sentry.Prelude.Bytes.{is_space}
use corta_sentry.Scope.Address.{Addr, invalid, v4, v6, Prefix, NetText, unmap, bit_len}

abbrev pub repeat : ℕ → ℕ → Text
repeat zero c = []
repeat (suc n) c = c ∷ repeat n c

abbrev count : ℕ → Text → ℕ
count c [] = 0
count c (x ∷ s) = if x == c then suc (count c s) else count c s

abbrev show_addr : Addr → Text
show_addr invalid = b'0' ∷ []
show_addr (v4 n) = b'4' ∷ repeat n b'x'
show_addr (v6 n z) = b'6' ∷ repeat n b'x' ++ repeat z b'y'

abbrev read_addr : Text → Option Addr
read_addr [] = none
read_addr (c ∷ s) =
    if c == b'4'
    then some (v4 (count b'x' s))
    else if c == b'6'
    then some (v6 (count b'x' s) (count b'y' s))
    else none

abbrev whole : Addr → Prefix
whole a = record { addr = a; bits = bit_len a }

abbrev read_prefix : Text → Option Prefix
read_prefix s = elim (read_addr s) [ none ↦ none | some a ↦ some (whole a) ]

count-x : (n z : ℕ) → count b'x' (repeat n b'x' ++ repeat z b'y') ≡ n
count-x zero zero = refl
count-x zero (suc z) = count-x zero z
count-x (suc n) z = ap suc (count-x n z)

count-y : (n z : ℕ) → count b'y' (repeat n b'x' ++ repeat z b'y') ≡ z
count-y zero zero = refl
count-y zero (suc z) = ap suc (count-y zero z)
count-y (suc n) z = count-y n z

count-repeat : (n : ℕ) → count b'x' (repeat n b'x') ≡ n
count-repeat zero = refl
count-repeat (suc n) = ap suc (count-repeat n)

repeat-NoSpace : (n c : ℕ) → is_space c ≡ false → NoSpace (repeat n c)
repeat-NoSpace zero c h = tt
repeat-NoSpace (suc n) c h = (h, repeat-NoSpace n c h)

pub show-NoSpace : (a : Addr) → NoSpace (show_addr a)
show-NoSpace invalid = (refl, tt)
show-NoSpace (v4 n) = (refl, repeat-NoSpace n b'x' refl)
show-NoSpace (v6 n z) = (
  refl,
  All-append _ (repeat n b'x') (repeat z b'y') (repeat-NoSpace n b'x' refl)
      (repeat-NoSpace z b'y' refl),
)

abbrev pub is_valid : Addr → Bool
is_valid invalid = false
is_valid _ = true

pub read-show : (a : Addr) → is_valid a ≡ true → read_addr (show_addr a) ≡ some a
read-show invalid h = cc
read-show (v4 n) h = ap (λ k. some (v4 k)) (count-repeat n)
read-show (v6 n z) h = rw (count-x n z, count-y n z)

pub read-is_valid : (s : Text) (a : Addr) → read_addr s ≡ some a → is_valid (unmap a) ≡ true
unfolding unmap
read-is_valid [] a h = cc
read-is_valid (c ∷ s) invalid h = ground arith
read-is_valid (c ∷ s) (v4 n) h = refl
read-is_valid (c ∷ s) (v6 n z) h = ground arith

abbrev pub codec : NetText
codec = record {
  parse_addr = read_addr;
  parse_prefix = read_prefix;
  show = show_addr;
  parse-show = λ s a h.
      rw (trim_space-NoSpace (show_addr (unmap a)) (show-NoSpace (unmap a)))
        (read-show (unmap a) (read-is_valid s a h));
}
