-- ===== src/Jobs/Stamp.antt =====
-- Timestamps as internal/storage/sqlite/store.go keeps and compares them: RFC 3339 texts with the
-- trailing zeros of the nanoseconds cut, compared by SQLite as texts.
use corta_sentry.Prelude.{
  ℕ, zero, suc, ◌+◌, ◌*◌, ◌/◌, ◌%◌, ◌^◌, ◌<◌, ◌≡◌, refl, Bool, true, false, ◌&&◌, ◌||◌, List, [],
  ◌∷◌, arith, ltb, ◌==◌, if◌then◌else◌, Bool-cases, inl, inr,
}

abbrev pub second : ℕ
second = 1000000000

-- `n` digits of a number, most significant first, with trailing zeros cut; then the `Z`.
unfoldable pub fraction_digits : ℕ → ℕ → List ℕ
fraction_digits zero f = b'Z' ∷ []
fraction_digits (suc n) f =
    let rest = fraction_digits n (f % 10 ^ n) in
    if f == 0 then b'Z' ∷ [] else (48 + f / 10 ^ n) ∷ rest

-- What follows the seconds in time.RFC3339Nano, in UTC.
unfoldable pub fraction_text : ℕ → List ℕ
unfolding fraction_digits
fraction_text f = if f == 0 then b'Z' ∷ [] else b'.' ∷ fraction_digits 9 f

unfoldable pub text_less : List ℕ → List ℕ → Bool
text_less [] [] = false
text_less [] (y ∷ ys) = true
text_less (x ∷ xs) [] = false
text_less (x ∷ xs) (y ∷ ys) = ltb x y || (x == y && text_less xs ys)

-- `a < b` in SQL, for two formatted times. The date and time up to the second have a fixed width,
-- so they compare as numbers.
unfoldable pub stamp_less : ℕ → ℕ → Bool
unfolding fraction_text text_less
stamp_less t u =
    ltb (t / second) (u / second)
    || (t / second == u / second
        && text_less (fraction_text (t % second)) (fraction_text (u % second)))

-- Times in different seconds compare as they should.
pub stamp_less_seconds : (t u : ℕ) → t / second < u / second → stamp_less t u ≡ true
unfolding stamp_less
stamp_less_seconds t u h = ground arith

-- A time on the whole second compares as later than every other time within that second.
pub stamp_less_whole_second :
    (s f : ℕ)
    → 0 < f
    → f < second
    → (stamp_less (s * second) (s * second + f) ≡ false)
      × (stamp_less (s * second + f) (s * second) ≡ true)
unfolding stamp_less
stamp_less_whole_second s f h l =
    let a : (s * second) % second ≡ 0 = omega arith in
    let b : (s * second + f) % second ≡ f = omega arith in
    let c : (s * second + f) / second ≡ (s * second) / second = omega arith in
    rw (a, b, c) (ground arith)

text_less_asymm : (a b : List ℕ) → text_less a b ≡ true → text_less b a ≡ false
unfolding text_less
text_less_asymm [] [] h = refl
text_less_asymm [] (y ∷ b) h = refl
text_less_asymm (x ∷ a) [] h = ground arith
text_less_asymm (x ∷ a) (y ∷ b) h = ground (arith, text_less_asymm a b)

text_less_trans :
    (a b c : List ℕ) → text_less a b ≡ false → text_less b c ≡ false → text_less a c ≡ false
unfolding text_less
text_less_trans [] [] c h k = k
text_less_trans [] (y ∷ b) c h k = ground arith
text_less_trans (x ∷ a) [] [] h k = refl
text_less_trans (x ∷ a) [] (z ∷ c) h k = ground arith
text_less_trans (x ∷ a) (y ∷ b) [] h k = refl
text_less_trans (x ∷ a) (y ∷ b) (z ∷ c) h k = ground (arith, text_less_trans a b c)

abbrev fraction : ℕ → List ℕ
fraction t = fraction_text (t % second)

lex_trans :
    (a b c : ℕ) (p q r : Bool)
    → (p ≡ false → q ≡ false → r ≡ false)
    → (ltb a b || (a == b && p)) ≡ false
    → (ltb b c || (b == c && q)) ≡ false
    → (ltb a c || (a == c && r)) ≡ false
lex_trans a b c p q r f h k = ground arith

-- The order on timestamps is asymmetric, and its complement is transitive.
pub stamp_less_asymm : (t u : ℕ) → stamp_less t u ≡ true → stamp_less u t ≡ false
unfolding stamp_less
stamp_less_asymm t u h = ground (arith, text_less_asymm (fraction t) (fraction u))

pub stamp_less_trans :
    (t u v : ℕ) → stamp_less t u ≡ false → stamp_less u v ≡ false → stamp_less t v ≡ false
unfolding stamp_less
stamp_less_trans t u v h k =
    lex_trans (t / second) (u / second) (v / second) (text_less (fraction t) (fraction u))
      (text_less (fraction u) (fraction v)) (text_less (fraction t) (fraction v))
      (text_less_trans (fraction t) (fraction u) (fraction v)) h k

pub stamp_less_irrefl : (t : ℕ) → stamp_less t t ≡ false
stamp_less_irrefl t = elim (Bool-cases (stamp_less t t)) [
  | inl y ↦ stamp_less_asymm t t y
  | inr n ↦ n
]
