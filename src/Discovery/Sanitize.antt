-- ===== src/Discovery/Sanitize.antt =====
-- internal/observation/sanitize.go: what is kept of a text and of the headers that a probe reads.
-- A text is the list of its code points; which are printable or blank is a table of `unicode`.
pub mod Bounds
pub mod Headers
use corta_sentry.Prelude.{
  ℕ, ◌+◌, Bool, true, false, ◌&&◌, ◌||◌, not, List, [], ◌∷◌, ◌++◌, Text, any, map, to_lower,
  list_eq, trim_space, ltb, leb, ◌==◌, if◌then◌else◌,
}

-- unicode.IsPrint and unicode.IsSpace.
pub record Tables : Type 0 where
  pub is_print : ℕ → Bool
  pub is_blank : ℕ → Bool

-- The bytes of a code point in UTF-8.
unfoldable pub rune_width : ℕ → ℕ
rune_width c = if ltb c 128 then 1 else if ltb c 2048 then 2 else if ltb c 65536 then 3 else 4

-- Builder.Len.
unfoldable pub byte_length : Text → ℕ
unfolding rune_width
byte_length [] = 0
byte_length (c ∷ s) = rune_width c + byte_length s

abbrev pub delete_char : ℕ
delete_char = 127

abbrev pub is_kept : Tables → ℕ → Bool
is_kept u c = u.is_print c && not (c == delete_char)

-- What one rune adds to the builder.
unfoldable pub written : Tables → ℕ → Text
written u c = if is_kept u c then c ∷ [] else if u.is_blank c then 32 ∷ [] else []

-- strings.TrimSpace, over the table.
unfoldable pub trim_front : Tables → Text → Text
trim_front u [] = []
trim_front u (c ∷ s) = if u.is_blank c then trim_front u s else c ∷ s

abbrev pub is_end : Text → Bool
is_end [] = true
is_end (c ∷ s) = false

unfoldable pub trim_back : Tables → Text → Text
trim_back u [] = []
trim_back u (c ∷ s) = let r = trim_back u s in if u.is_blank c && is_end r then [] else c ∷ r

abbrev pub trim : Tables → Text → Text
trim u s = trim_back u (trim_front u s)

-- The loop of Printable: the text that follows what `used` bytes were written for, and whether it
-- was cut.
unfoldable pub scan : Tables → ℕ → ℕ → Text → Text × Bool
unfolding written byte_length
scan u max used [] = ([], false)
scan u max used (c ∷ s) =
    let rest = scan u max (used + byte_length (written u c)) s in
    if leb max used then ([], true) else (written u c ++ rest.0, rest.1)

-- Printable.
unfoldable pub printable : Tables → Text → ℕ → Text × Bool
unfolding scan trim_front trim_back
printable u s max = let r = scan u max 0 s in (trim u r.0, r.1)

abbrev pub authorization : Text
authorization =
    b'a' ∷ b'u' ∷ b't' ∷ b'h' ∷ b'o' ∷ b'r' ∷ b'i' ∷ b'z' ∷ b'a' ∷ b't' ∷ b'i' ∷ b'o' ∷ b'n' ∷ []

abbrev pub proxy_authorization : Text
proxy_authorization = b'p' ∷ b'r' ∷ b'o' ∷ b'x' ∷ b'y' ∷ b'-' ∷ authorization

abbrev pub cookie : Text
cookie = b'c' ∷ b'o' ∷ b'o' ∷ b'k' ∷ b'i' ∷ b'e' ∷ []

abbrev pub set_cookie : Text
set_cookie = b's' ∷ b'e' ∷ b't' ∷ b'-' ∷ cookie

-- secretHeaders.
abbrev pub secret_headers : List Text
secret_headers = authorization ∷ proxy_authorization ∷ cookie ∷ set_cookie ∷ []

-- secretHeaders[strings.ToLower(strings.TrimSpace(k))]
unfoldable pub is_secret : Text → Bool
is_secret k = any (list_eq (map to_lower (trim_space k))) secret_headers

abbrev pub Headers : Type 0
Headers = List (Text × List Text)

unfoldable pub clean_values : Tables → ℕ → List Text → List Text × Bool
clean_values u max [] = ([], false)
clean_values u max (v ∷ vs) =
    let r = clean_values u max vs in let p = printable u v max in (p.0 ∷ r.0, p.1 || r.1)

-- The loop of SanitizeHeaders over a map, in the order in which it is walked.
unfoldable pub keep_headers : Tables → ℕ → ℕ → ℕ → Headers → Headers × Bool
keep_headers u max_headers max_value n [] = ([], false)
keep_headers u max_headers max_value n ((k, vs) ∷ hs) =
    let skipped = keep_headers u max_headers max_value n hs in
    let rest = keep_headers u max_headers max_value (n + 1) hs in
    let c = clean_values u max_value vs in
    if is_secret k
    then skipped
    else if leb max_headers n
    then ([], true)
    else ((k, c.0) ∷ rest.0, c.1 || rest.1)

-- SanitizeHeaders.
unfoldable pub sanitize_headers : Tables → Headers → ℕ → ℕ → Headers × Bool
unfolding keep_headers clean_values is_secret
sanitize_headers u hs max_headers max_value = keep_headers u max_headers max_value 0 hs
