-- ===== src/Records/Occurrences.antt =====
-- internal/storage/sqlite/store.go: the table that a sequence of AddChange calls leaves, against
-- the sequence itself.
use mathlib.Core.Path.{fun_ext}
use corta_sentry.Prelude.{
  ℕ, ◌+◌, ◌≡◌, refl, sym, ap, subst, ◌∙◌, Bool, true, false, Option, none, some, List, [], ◌∷◌,
  arith, not, ◌&&◌, ◌||◌, any, length, list_eq, list_eq→eq, if◌then◌else◌, Bool-cases, Option-cases,
  inl, inr, first, first-true, first-update_where, first-append_row, first-any,
}
use corta_sentry.Records.Changes.{
  ChangeEvent, ChangeRow, same_key, row_of, repeated, first_row, row_id, upsert_change, add_change,
}

-- Calls of AddChange, each with the identifier that newID would make.
abbrev pub Calls : Type 0
Calls = List (ℕ × ChangeEvent)

module _ (known : ℕ → Bool) where
  -- The table after a call: a call that fails leaves it as it was.
  abbrev pub added : ℕ → ChangeEvent → List ChangeRow → List ChangeRow
  added fresh c t = elim (add_change known fresh c t) [ none ↦ t | some u ↦ u ]

  unfoldable pub add_changes : Calls → List ChangeRow → List ChangeRow
  add_changes [] t = t
  add_changes ((fresh, c) ∷ cs) t = add_changes cs (added fresh c t)

  -- A call can be carried out if there is a row of its key, or no row has its identifier and its asset
  -- is known.
  abbrev pub can_add : ℕ → ChangeEvent → List ChangeRow → Bool
  can_add fresh c t =
      any (row_of c) t || (not (any (row_id (first_row fresh c).event.id) t) && known c.asset_id)

  -- The calls of a sequence that can be carried out, each on the table that it meets.
  unfoldable pub carried_out : Calls → List ChangeRow → Calls
  carried_out [] t = []
  carried_out ((fresh, c) ∷ cs) t =
      let rest = carried_out cs (added fresh c t) in
      if can_add fresh c t then (fresh, c) ∷ rest else rest

  added-true :
      (fresh : ℕ) (c : ChangeEvent) (t : List ChangeRow)
      → can_add fresh c t ≡ true
      → added fresh c t ≡ upsert_change fresh c t
  unfolding add_change
  added-true fresh c t h = ground arith

  added-false :
      (fresh : ℕ) (c : ChangeEvent) (t : List ChangeRow)
      → can_add fresh c t ≡ false
      → added fresh c t ≡ t
  unfolding add_change
  added-false fresh c t h = ground arith

-- The row of an event's key.
abbrev pub the_row : ChangeEvent → List ChangeRow → Option ChangeRow
the_row k t = first (row_of k) t

unfoldable pub last_sighting : ℕ → Calls → ℕ
last_sighting at [] = at
last_sighting at ((fresh, c) ∷ cs) = last_sighting c.last_occurrence cs

-- What the calls with one key amount to: the first event, with the number of calls and the last
-- occurrence of the last one.
unfoldable pub summary : Calls → Option ChangeRow
unfolding last_sighting
summary [] = none
summary ((fresh, c) ∷ cs) =
    let row = first_row fresh c in
    some (record row {
      event = record row.event { last_occurrence = last_sighting c.last_occurrence cs };
      occurrences = length cs + 1;
    })

-- The calls with the key of an event.
unfoldable pub with_key : ChangeEvent → Calls → Calls
with_key k [] = []
with_key k ((fresh, c) ∷ cs) =
    let rest = with_key k cs in if same_key k c then (fresh, c) ∷ rest else rest

key_trans : (k c d : ChangeEvent) → same_key k c ≡ true → same_key k d ≡ same_key c d
key_trans k c d h =
    let e : c.current ≡ k.current = list_eq→eq c.current k.current (ground arith) in
    let f : list_eq d.current k.current ≡ list_eq d.current c.current =
      ap (list_eq d.current) (sym e) in
    ground arith

key_apart :
    (k c d : ChangeEvent) → same_key k c ≡ false → same_key k d ≡ true → same_key c d ≡ false
key_apart k c d h g = elim (Bool-cases (same_key c d)) [
  | inr n ↦ n
  | inl t ↦
      let a : list_eq d.current c.current ≡ true = ground arith in
      let b : list_eq d.current k.current ≡ true = ground arith in
      let e = list_eq→eq d.current c.current a in
      let f : list_eq c.current k.current ≡ true =
        subst (λ (x : List ℕ). list_eq x k.current ≡ true) e b in
      absurd (ground arith)
]

-- What a call makes of the row of a key that it meets.
abbrev seen : ℕ → ChangeEvent → Option ChangeRow → Option ChangeRow
seen fresh c none = some (first_row fresh c)
seen fresh c (some r) = some (repeated c r)

upsert_change-same :
    (fresh : ℕ) (k c : ChangeEvent) (t : List ChangeRow)
    → same_key k c ≡ true
    → the_row k (upsert_change fresh c t) ≡ seen fresh c (the_row k t)
unfolding upsert_change
upsert_change-same fresh k c t h =
    let u = first-update_where (row_of k) (row_of c) (repeated c) t (λ x. refl) in
    let v = first-append_row (row_of k) t (first_row fresh c) in
    let w : row_of k ≡ row_of c = fun_ext (λ (x : ChangeRow). key_trans k c x.event h) in
    let y : any (row_of c) t ≡ (elim (the_row k t) [ none ↦ false | some x ↦ true ]) =
      ap (λ (p : ChangeRow → Bool). any p t) (sym w) ∙ first-any (row_of k) t in
    elim (Option-cases (the_row k t)) [
      | inl n ↦ ground arith
      | inr (r, e) ↦ ground (arith, first-true (row_of k) t e, key_trans k c r.event h)
    ]

upsert_change-other :
    (fresh : ℕ) (k c : ChangeEvent) (t : List ChangeRow)
    → same_key k c ≡ false
    → the_row k (upsert_change fresh c t) ≡ the_row k t
unfolding upsert_change
upsert_change-other fresh k c t h =
    let u = first-update_where (row_of k) (row_of c) (repeated c) t (λ x. refl) in
    let v = first-append_row (row_of k) t (first_row fresh c) in
    elim (Option-cases (the_row k t)) [
      | inl n ↦ ground arith
      | inr (r, e) ↦ ground (arith, first-true (row_of k) t e, key_apart k c r.event h)
    ]

unfoldable continued : Option ChangeRow → Calls → Option ChangeRow
continued o [] = o
continued o ((fresh, c) ∷ cs) = continued (seen fresh c o) cs

-- What one more call makes of the row of a key.
upsert_change-continued :
    (k : ChangeEvent) (fresh : ℕ) (c : ChangeEvent) (cs : Calls) (t : List ChangeRow)
    → continued (the_row k (upsert_change fresh c t)) (with_key k cs)
      ≡ continued (the_row k t) (with_key k ((fresh, c) ∷ cs))
unfolding continued with_key
upsert_change-continued k fresh c cs t =
    let rest : Option ChangeRow → Option ChangeRow = λ o. continued o (with_key k cs) in
    elim (Bool-cases (same_key k c)) [
      | inl y ↦ rw (y, with_key) (ap rest (upsert_change-same fresh k c t y))
      | inr n ↦ rw (n, with_key) (ap rest (upsert_change-other fresh k c t n))
    ]

add_changes-continued :
    (known : ℕ → Bool) (k : ChangeEvent) (cs : Calls) (t : List ChangeRow)
    → the_row k (add_changes known cs t)
      ≡ continued (the_row k t) (with_key k (carried_out known cs t))
unfolding add_changes continued with_key carried_out
add_changes-continued known k [] t = refl
add_changes-continued known k ((fresh, c) ∷ cs) t =
    let ih = add_changes-continued known k cs (added known fresh c t) in
    let rest = carried_out known cs (added known fresh c t) in
    elim (Bool-cases (can_add known fresh c t)) [
      | inl y ↦
          ih
          ∙ rw (y, carried_out)
              (ap (λ (u : List ChangeRow). continued (the_row k u) (with_key k rest))
                  (added-true known fresh c t y)
                ∙ upsert_change-continued k fresh c rest t)
      | inr n ↦
          ih
          ∙ rw (n, carried_out)
              (ap (λ (u : List ChangeRow). continued (the_row k u) (with_key k rest))
                (added-false known fresh c t n))
    ]

abbrev extended : ChangeRow → Calls → ChangeRow
extended r cs = record {
  event = record r.event { last_occurrence = last_sighting r.event.last_occurrence cs };
  occurrences = r.occurrences + length cs;
}

continued-extended : (r : ChangeRow) (cs : Calls) → continued (some r) cs ≡ some (extended r cs)
unfolding continued last_sighting
continued-extended r [] = ground arith
continued-extended r ((fresh, c) ∷ cs) = ground (arith, continued-extended (repeated c r) cs)

continued-summary : (cs : Calls) → continued none cs ≡ summary cs
unfolding continued summary last_sighting
continued-summary [] = refl
continued-summary ((fresh, c) ∷ cs) = ground (arith, continued-extended (first_row fresh c) cs)

-- After any sequence of AddChange calls on an empty table, the row of a key holds the first event
-- of that key that was added, the number of the key's events that were, and the last occurrence of
-- the last of them; a key of which no event was added has no row. A call adds its event if a row
-- has its key, or no row has its identifier and its asset is known; otherwise it leaves the table
-- as it is.
pub add_changes-summary :
    (known : ℕ → Bool) (cs : Calls) (k : ChangeEvent)
    → the_row k (add_changes known cs []) ≡ summary (with_key k (carried_out known cs []))
unfolding first
add_changes-summary known cs k =
    add_changes-continued known k cs [] ∙ continued-summary (with_key k (carried_out known cs []))
