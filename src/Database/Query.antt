-- ===== src/Database/Query.antt =====
-- The shapes of query that the program makes: the row with the greatest (created_at, id), and
-- `scalar_one_or_none`.
use mathlib.Core.Path.{subst}
use mathlib.Core.Option.{some-injective}
use orchestration_system.Common.{
  ℕ, ◌≡◌, refl, ap, Bool, true, false, Option, none, some, List, [], ◌∷◌, ◌&&◌, ◌||◌, arith, ltb,
  ◌==◌, if◌then◌else◌, All, Bool-cases, inl, inr, is_some, length,
}

-- (t, i) before (u, j) in the order by time, then id
abbrev pub is_before : ℕ × ℕ → ℕ × ℕ → Bool
is_before (t, i) (u, j) = ltb t u || (t == u && ltb i j)

module _ {ℓ} {A : Type ℓ} (key : A → ℕ × ℕ) where
  newer : A → Option A → A
  newer a none = a
  newer a (some b) = if is_before (key a) (key b) then b else a

  -- `.order_by(created_at.desc(), id.desc()).limit(1)`
  unfoldable pub latest : List A → Option A
  unfolding newer
  latest [] = none
  latest (a ∷ rows) = some (newer a (latest rows))

  newer-keeps {κ} :
      (P : A → Type κ) (b : A) (o : Option A) → P b → ((c : A) → o ≡ some c → P c) → P (newer b o)
  unfolding newer
  newer-keeps P b none h k = h
  newer-keeps P b (some c) h k = elim (Bool-cases (is_before (key b) (key c))) [
    | inl older ↦ rw older (k c refl)
    | inr younger ↦ rw younger h
  ]

  -- What holds of every row holds of the latest one.
  pub latest-All {κ} :
      (P : A → Type κ) (rows : List A) (a : A) → All P rows → latest rows ≡ some a → P a
  unfolding latest
  latest-All P [] a h e = cc
  latest-All P (b ∷ rows) a h e =
      subst P (some-injective _ _ e)
        (newer-keeps P b (latest rows) h.0 (λ c found. latest-All P rows c h.1 found))

  newer_self :
      (a : A) (o : Option A)
      → ((c : A) → o ≡ some c → is_before (key a) (key c) ≡ false)
      → newer a o ≡ a
  unfolding newer
  newer_self a none h = refl
  newer_self a (some c) h = rw (h c refl)

  -- A row that no other row is newer than is the latest.
  pub latest-newest :
      (a : A) (rows : List A)
      → All (λ c. is_before (key a) (key c) ≡ false) rows
      → latest (a ∷ rows) ≡ some a
  unfolding latest
  latest-newest a rows h = ap some (
      newer_self a (latest rows)
        (λ c found. latest-All (λ d. is_before (key a) (key d) ≡ false) rows c h found))

  -- A table with a row has a latest row.
  pub latest-cons : (a : A) (rows : List A) → is_some (latest (a ∷ rows)) ≡ true
  unfolding latest
  latest-cons a rows = refl

  pub latest-is_some : (rows : List A) → is_some (latest rows) ≡ ltb 0 (length rows)
  unfolding latest
  latest-is_some [] = refl
  latest-is_some (a ∷ rows) = ground arith

-- `.order_by(...)` on a table whose newest row stands first: rows that are equal in the order come in
-- the order in which they were added
module _ {ℓ} {A : Type ℓ} (less : A → A → Bool) where
  unfoldable pub insert_row : A → List A → List A
  insert_row a [] = a ∷ []
  insert_row a (b ∷ rows) =
      let later = b ∷ insert_row a rows in if less a b then a ∷ b ∷ rows else later

  unfoldable pub order_by : List A → List A
  unfolding insert_row
  order_by [] = []
  order_by (a ∷ rows) = insert_row a (order_by rows)
