-- ===== src/Auth/Rotation.antt =====
-- internal/auth/auth.go: Rotate, and what it leaves able to authenticate.
use corta_sentry.Prelude.{
  ℕ, ◌≡◌, ◌≢◌, refl, sym, ap, subst, ◌∙◌, true, false, ◌&&◌, not, none, some, List, [], ◌∷◌, ◌++◌,
  arith, Text, ◌==◌, if◌then◌else◌, Bool-cases, inl, inr, Memᴰ, delete_where, update_where-mem,
  append-mem_cases, err,
}
use corta_sentry.Auth.Tables.{
  TokenRow, SessionRow, AuthState, Request, Principal, token, bearer, after_prefix, is_null,
  new_token, authenticate, rotate, secret_not_written,
}
use corta_sentry.Auth.Requests.{authenticate_lem}

-- No row has the identifier.
abbrev pub Unused : ℕ → List TokenRow → Type 0
Unused id rows = (r : TokenRow) → Memᴰ r rows → r.id ≢ id

-- What the update of a row makes of one that was not revoked.
revoked_token :
    (id now : ℕ) (x y : TokenRow)
    → y
      ≡ (if not (x.id == id) && is_null x.revoked_at then record x { revoked_at = some now } else x)
    → y.revoked_at ≡ none
    → (y ≡ x) × (x.id ≡ id)
revoked_token id now x y e n = elim (Bool-cases (not (x.id == id) && is_null x.revoked_at)) [
  | inl t ↦ absurd (ground arith)
  | inr f ↦
      let q : y ≡ x = ground arith in
      let u : x.revoked_at ≡ none = subst (λ (z : TokenRow). z.revoked_at ≡ none) q n in
      (q, ground arith)
]

revoked_session :
    (now : ℕ) (x y : SessionRow)
    → y ≡ (if is_null x.revoked_at then record x { revoked_at = some now } else x)
    → y.revoked_at ≡ none
    → ⊥
revoked_session now x y e n = elim (Bool-cases (is_null x.revoked_at)) [
  | inl t ↦ absurd (ground arith)
  | inr f ↦
      let q : y ≡ x = ground arith in
      let u : x.revoked_at ≡ none = subst (λ (z : SessionRow). z.revoked_at ≡ none) q n in
      ground arith
]

module _ (hash : Text → ℕ) (id now : ℕ) (t : Text) (st : AuthState) where
  rotated_token :
      Unused id st.tokens
      → (y : TokenRow) → Memᴰ y (rotate hash id now t true st).1.tokens
      → y.revoked_at ≡ none
      → y ≡ new_token hash id now t
  unfolding rotate
  rotated_token free y m n =
      let (x, k, e) =
        update_where-mem (λ (r : TokenRow). not (r.id == id) && is_null r.revoked_at)
          (λ (r : TokenRow). record r { revoked_at = some now })
          (st.tokens ++ new_token hash id now t ∷ []) y m in
      let (q, i) = revoked_token id now x y e n in
      elim (append-mem_cases st.tokens (new_token hash id now t) x k) [
        | inl old ↦ absurd (free x old i)
        | inr new ↦ q ∙ new
      ]

  rotated_session :
      (y : SessionRow) → Memᴰ y (rotate hash id now t true st).1.sessions → y.revoked_at ≡ none → ⊥
  unfolding rotate
  rotated_session y m n =
      let (x, k, e) =
        update_where-mem (λ (s : SessionRow). is_null s.revoked_at)
          (λ (s : SessionRow). record s { revoked_at = some now }) st.sessions y m in
      revoked_session now x y e n

  -- After a rotation whose secret file was written, with an identifier that no token had, a request
  -- is authenticated only as the new token, by a bearer token that hashes as the new one: no
  -- session and no older token is left.
  pub rotate_lem :
      Unused id st.tokens
      → (now' : ℕ) (r : Request) (p : Principal)
      → authenticate hash now' r (rotate hash id now t true st).1 ≡ some p
      → (p ≡ token id)
        × ((s : Text) × (after_prefix bearer r.authorization ≡ some s) × (hash s ≡ hash t))
  rotate_lem free now' r p h =
      elim (authenticate_lem hash now' r (rotate hash id now t true st).1 p h) [
        | inr (i, q, s) ↦ absurd (rotated_session s.row s.stored s.unrevoked)
        | inl (i, q, k) ↦
            let e : k.row ≡ new_token hash id now t =
              rotated_token free k.row k.stored k.unrevoked in
            (
              q ∙ ap token (sym k.named ∙ ap (λ (x : TokenRow). x.id) e),
              (k.text, k.sent, k.matches ∙ ap (λ (x : TokenRow). x.token_hash) e),
            )
      ]

delete_inserted :
    (id : ℕ) (rows : List TokenRow) (r : TokenRow)
    → r.id ≡ id
    → Unused id rows
    → delete_where (λ (x : TokenRow). x.id == id) (rows ++ r ∷ []) ≡ rows
unfolding delete_where
delete_inserted id [] r e u = ground arith
delete_inserted id (x ∷ rows) r e u =
    let n : x.id ≢ id = u x (Memᴰ.head refl) in
    ground (arith, delete_inserted id rows r e (λ y m. u y (Memᴰ.tail m)))

-- A rotation whose secret file cannot be written fails and leaves the state as it was.
pub rotate_failed :
    (hash : Text → ℕ) (id now : ℕ) (t : Text) (st : AuthState)
    → Unused id st.tokens
    → rotate hash id now t false st ≡ (err secret_not_written, st)
unfolding rotate
rotate_failed hash id now t st u =
    rw (delete_inserted id st.tokens (new_token hash id now t) refl u) refl
