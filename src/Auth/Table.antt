-- ===== src/Auth/Table.antt =====
-- The tables of tokens (internal/database/web_sessions.go, api_tokens.go): a digest stands in one row.
use mathlib.Core.Path.{subst}
use fascinate.Base.{
  ◌⊎◌, ℕ, ◌≤◌, ◌≡◌, refl, ◌∙◌, Bool, true, false, not, ◌&&◌, none, some, List, [], ◌∷◌, arith,
  Bool-cases, inl, inr,
}
use fascinate.Base.Text.{Text, trim_space, text_eq, eq_of_text_eq, text_eq_refl}
use fascinate.Database.Records.{TokenRecord}
use fascinate.Database.Tokens.{find_active, is_active, clash, clashes, update_where}

-- Identifiers have no spaces around them, and no two rows share an identifier or a digest.
unfoldable pub Keyed : List TokenRecord → Type 0
Keyed [] = Unit {0}
Keyed (r ∷ rs) = (trim_space r.id ≡ r.id) × ((clashes r.id r.token_hash rs ≡ false) × Keyed rs)

-- A change that keeps identifiers and digests.
pub record KeepsKeys (f : TokenRecord → TokenRecord) : Type 0 where
  pub id_kept : (r : TokenRecord) → (f r).id ≡ r.id
  pub hash_kept : (r : TokenRecord) → (f r).token_hash ≡ r.token_hash

module _ (p : TokenRecord → Bool) (f : TokenRecord → TokenRecord) (k : KeepsKeys f) where
  clashes-update_where :
      (i h : Text) (rows : List TokenRecord)
      → clashes i h (update_where p f rows) ≡ clashes i h rows
  unfolding clashes clash update_where
  clashes-update_where i h [] = refl
  clashes-update_where i h (r ∷ rs) =
      ground (arith, k.id_kept r, k.hash_kept r, clashes-update_where i h rs)

  pub update_where-Keyed : (rows : List TokenRecord) → Keyed rows → Keyed (update_where p f rows)
  unfolding Keyed update_where
  update_where-Keyed [] h = tt
  update_where-Keyed (r ∷ rs) h = elim (Bool-cases (p r)) [
    | inl e ↦
        rw (e, k.id_kept r, k.hash_kept r)
          (h.0, (clashes-update_where r.id r.token_hash rs ∙ h.1.0, update_where-Keyed rs h.1.1))
    | inr e ↦
        rw e (h.0, (clashes-update_where r.id r.token_hash rs ∙ h.1.0, update_where-Keyed rs h.1.1))
  ]

-- A digest that no row has is not found.
find_active_absent :
    (now : ℕ) (i h : Text) (rows : List TokenRecord)
    → clashes i h rows ≡ false
    → find_active now h rows ≡ none
unfolding clashes clash find_active
find_active_absent now i h [] c = refl
find_active_absent now i h (r ∷ rs) c = ground (arith, find_active_absent now i h rs)

-- The first row, if it is active.
pub find_active_head :
    (now : ℕ) (h : Text) (r : TokenRecord) (rows : List TokenRecord)
    → r.token_hash ≡ h
    → r.revoked ≡ false
    → now ≤ r.expires_at
    → find_active now h (r ∷ rows) ≡ some r
unfolding find_active is_active
find_active_head now h r rows same live le = ground (arith, text_eq_refl h)

-- A row that is found has the digest, and is neither revoked nor expired.
pub find_active_sound :
    (now : ℕ) (h : Text) (rows : List TokenRecord) (r : TokenRecord)
    → find_active now h rows ≡ some r
    → (r.token_hash ≡ h) × ((r.revoked ≡ false) × (now ≤ r.expires_at))
unfolding find_active is_active
find_active_sound now h [] r e = absurd (ground arith)
find_active_sound now h (q ∷ qs) r e =
    elim (Bool-cases (text_eq q.token_hash h && is_active now q)) [
      | inl yes_ ↦ (eq_of_text_eq _ h (ground arith), (ground arith, ground arith))
      | inr no_ ↦ find_active_sound now h qs r (ground arith)
    ]

-- The row is one of the list.
unfoldable pub IsRow : TokenRecord → List TokenRecord → Type 0
IsRow r [] = ⊥
IsRow r (q ∷ qs) = (q ≡ r) ⊎ IsRow r qs

-- A row that is found is in the table.
pub find_active-IsRow :
    (now : ℕ) (h : Text) (rows : List TokenRecord) (r : TokenRecord)
    → find_active now h rows ≡ some r
    → IsRow r rows
unfolding find_active IsRow
find_active-IsRow now h [] r e = absurd (ground arith)
find_active-IsRow now h (q ∷ qs) r e =
    elim (Bool-cases (text_eq q.token_hash h && is_active now q)) [
      | inl here ↦ inl (ground arith)
      | inr skip ↦ inr (find_active-IsRow now h qs r (ground arith))
    ]

pub find_active_trimmed :
    (now : ℕ) (h : Text) (rows : List TokenRecord) (r : TokenRecord)
    → Keyed rows
    → find_active now h rows ≡ some r
    → trim_space r.id ≡ r.id
unfolding Keyed find_active
find_active_trimmed now h [] r k e = absurd (ground arith)
find_active_trimmed now h (q ∷ qs) r k e =
    elim (Bool-cases (text_eq q.token_hash h && is_active now q)) [
      | inl here ↦ ground (arith, k.0)
      | inr skip ↦ find_active_trimmed now h qs r k.1.1 (ground arith)
    ]

-- What is not active now is not active later.
pub find_active_later :
    (now later : ℕ) (h : Text) (rows : List TokenRecord)
    → now ≤ later
    → find_active now h rows ≡ none
    → find_active later h rows ≡ none
unfolding find_active is_active
find_active_later now later h [] le e = refl
find_active_later now later h (r ∷ rs) le e = ground (arith, find_active_later now later h rs)

abbrev pub revoke_at : Text → TokenRecord → Bool
revoke_at i r = text_eq r.id i && not r.revoked

abbrev pub revoked_row : TokenRecord → TokenRecord
revoked_row r = record r { revoked = true }

pub revoked_row-KeepsKeys : KeepsKeys revoked_row
revoked_row-KeepsKeys = record { id_kept = λ r. refl; hash_kept = λ r. refl }

-- Once the row that was found is revoked, its digest is found at no time.
pub find_active-revoked :
    (now later : ℕ) (h : Text) (rows : List TokenRecord) (r : TokenRecord)
    → Keyed rows
    → find_active now h rows ≡ some r
    → find_active later h (update_where (revoke_at r.id) revoked_row rows) ≡ none
unfolding Keyed find_active update_where is_active
find_active-revoked now later h [] r k e = absurd (ground arith)
find_active-revoked now later h (q ∷ qs) r k e =
    elim (Bool-cases (text_eq q.token_hash h && is_active now q)) [
      | inl here ↦ first here
      | inr skip ↦
          ground (arith, other skip, find_active-revoked now later h qs r k.1.1 (ground arith))
    ]
  where
    absent :
        (at : ℕ) (rows : List TokenRecord)
        → q.token_hash ≡ h
        → clashes q.id q.token_hash rows ≡ false
        → find_active at h rows ≡ none
    absent at rows same c =
        find_active_absent at q.id h rows (subst (λ t. clashes q.id t rows ≡ false) same c)

    other : (text_eq q.token_hash h && is_active now q) ≡ false → text_eq q.token_hash h ≡ false
    other skip = elim (Bool-cases (text_eq q.token_hash h)) [
      | inl same ↦ absurd (ground (arith, absent now qs (eq_of_text_eq _ h same) k.1.0))
      | inr differs ↦ differs
    ]

    first :
        (text_eq q.token_hash h && is_active now q) ≡ true
        → find_active later h (update_where (revoke_at r.id) revoked_row (q ∷ qs)) ≡ none
    first here = ground (
      arith,
      text_eq_refl q.id,
      absent later (update_where (revoke_at q.id) revoked_row qs) (eq_of_text_eq _ h (ground arith))
          (clashes-update_where (revoke_at q.id) revoked_row revoked_row-KeepsKeys q.id q.token_hash
              qs
            ∙ k.1.0),
    )

-- A row that is not there yet is inserted at its place.
pub insert-Keyed :
    (r : TokenRecord) (rows : List TokenRecord)
    → trim_space r.id ≡ r.id
    → clashes r.id r.token_hash rows ≡ false
    → Keyed rows
    → Keyed (r ∷ rows)
unfolding Keyed
insert-Keyed r rows e c k = (e, (c, k))
