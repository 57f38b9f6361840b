-- ===== src/Common/Lists.antt =====
-- Lists: predicates over all members, Boolean tests over lists, and counting.
use Prim.Native.Nat.{ℕ, suc, ◌+◌}
use mathlib.Core.Path.{◌≡◌, refl, ap, subst}
use mathlib.Core.Bool.{Bool, true, false, ◌&&◌, ◌||◌}
use mathlib.Core.Option.{Option, none, some, some-injective}
use mathlib.Core.List.{List, [], ◌∷◌, ◌++◌, Memᴰ}
use native.Mathlib.Omega.{arith}
use orchestration_system.Common.Tests.{if◌then◌else◌, &&-eq-true, Bool-cases}
use mathlib.Core.Logic.{◌≢◌, inl, inr}

pub or-true_left : {a : Bool} (b : Bool) → a ≡ true → (a || b) ≡ true
or-true_left b h = rw h refl

pub none-ne {ℓ} : {A : Type ℓ} {a : A} → ◌≢◌ {A = Option A} none (some a)
none-ne h = cc

pub or-true_right : (a : Bool) {b : Bool} → b ≡ true → (a || b) ≡ true
or-true_right true h = refl
or-true_right false h = h

module _ {ℓ} {A : Type ℓ} where
  abbrev pub length : List A → ℕ
  length [] = 0
  length (x ∷ xs) = suc (length xs)

  -- the members that pass a test, in order
  abbrev pub filter : (A → Bool) → List A → List A
  filter p [] = []
  filter p (x ∷ xs) = let rest = filter p xs in if p x then x ∷ rest else rest

  abbrev pub count : (A → Bool) → List A → ℕ
  count p [] = 0
  count p (x ∷ xs) = (if p x then 1 else 0) + count p xs

  abbrev pub any : (A → Bool) → List A → Bool
  any p [] = false
  any p (x ∷ xs) = p x || any p xs

  abbrev pub all : (A → Bool) → List A → Bool
  all p [] = true
  all p (x ∷ xs) = p x && all p xs

  -- the first member that passes a test
  abbrev pub find : (A → Bool) → List A → Option A
  find p [] = none
  find p (x ∷ xs) = let rest = find p xs in if p x then some x else rest

  abbrev pub map_option : (A → A) → Option A → Option A
  map_option f none = none
  map_option f (some x) = some (f x)

  -- the list with the members that pass a test changed, as an assignment to rows changes a table
  abbrev pub update : (A → Bool) → (A → A) → List A → List A
  update p f [] = []
  update p f (x ∷ xs) = (if p x then f x else x) ∷ update p f xs

  abbrev pub is_empty : List A → Bool
  is_empty [] = true
  is_empty (x ∷ xs) = false

  pub count-append : (p : A → Bool) (xs ys : List A) → count p (xs ++ ys) ≡ count p xs + count p ys
  count-append p [] ys = omega arith
  count-append p (x ∷ xs) ys = omega (arith, count-append p xs ys)

  pub length-filter : (p : A → Bool) (xs : List A) → length (filter p xs) ≡ count p xs
  length-filter p [] = refl
  length-filter p (x ∷ xs) = ground (arith, length-filter p xs)

  -- A test that was evaluated over a whole list holds at each member.
  pub all_sound : (p : A → Bool) (x : A) (xs : List A) → all p xs ≡ true → Memᴰ x xs → p x ≡ true
  all_sound p x [] h m = elim m [ ]
  all_sound p x (y ∷ ys) h (Memᴰ.head e) = rw e (&&-eq-true h).0
  all_sound p x (y ∷ ys) h (Memᴰ.tail m) = all_sound p x ys (&&-eq-true {a = p y} h).1 m

  pub filter-hit :
      (p : A → Bool) (x : A) (xs : List A) → p x ≡ true → filter p (x ∷ xs) ≡ x ∷ filter p xs
  filter-hit p x xs hit = rw hit refl

  pub filter-miss :
      (p : A → Bool) (x : A) (xs : List A) → p x ≡ false → filter p (x ∷ xs) ≡ filter p xs
  filter-miss p x xs miss = rw miss refl

  -- What `find` gives passes the test.
  pub find-passes : (p : A → Bool) (xs : List A) (x : A) → find p xs ≡ some x → p x ≡ true
  find-passes p [] x h = cc
  find-passes p (y ∷ ys) x h = elim (Bool-cases (p y)) [
    | inl hit ↦ subst (λ z. p z ≡ true) (some-injective y x (rw hit at h)) hit
    | inr miss ↦ find-passes p ys x (rw miss at h)
  ]

  -- A change that keeps the test: the first member that passes is the changed one.
  pub find-update :
      (p : A → Bool) (f : A → A) (xs : List A)
      → ((x : A) → p x ≡ true → p (f x) ≡ true)
      → find p (update p f xs) ≡ map_option f (find p xs)
  find-update p f [] keeps = refl
  find-update p f (x ∷ xs) keeps = elim (Bool-cases (p x)) [
    | inl hit ↦ rw (hit, keeps x hit) refl
    | inr miss ↦ rw (miss, miss) (find-update p f xs keeps)
  ]

  -- A change of other members leaves the first member that passes.
  pub find-update_other :
      (q p : A → Bool) (f : A → A) (xs : List A)
      → ((x : A) → p x ≡ true → q x ≡ false)
      → ((x : A) → p x ≡ true → q (f x) ≡ false)
      → find q (update p f xs) ≡ find q xs
  find-update_other q p f [] before after = refl
  find-update_other q p f (x ∷ xs) before after = elim (Bool-cases (p x)) [
    | inl hit ↦ rw (hit, before x hit, after x hit) (find-update_other q p f xs before after)
    | inr miss ↦
        rw miss (ap (λ o. if q x then some x else o) (find-update_other q p f xs before after))
  ]

  -- A weaker test passes where a stronger one does.
  pub any_mono :
      (p q : A → Bool) (xs : List A)
      → ((x : A) → p x ≡ true → q x ≡ true)
      → any p xs ≡ true
      → any q xs ≡ true
  any_mono p q [] weaker h = h
  any_mono p q (x ∷ xs) weaker h = elim (Bool-cases (p x)) [
    | inl hit ↦ rw (weaker x hit) refl
    | inr miss ↦ or-true_right (q x) (any_mono p q xs weaker (rw miss at h))
  ]

  -- The same, where the tests are compared only at members that pass a third test.
  pub any_within :
      (r p q : A → Bool) (xs : List A)
      → ((x : A) → r x ≡ true → p x ≡ true → q x ≡ true)
      → all r xs ≡ true
      → any p xs ≡ true
      → any q xs ≡ true
  any_within r p q [] weaker within h = h
  any_within r p q (x ∷ xs) weaker within h = elim (Bool-cases (p x)) [
    | inl hit ↦ rw (weaker x (&&-eq-true within).0 hit) refl
    | inr miss ↦
        or-true_right (q x)
          (any_within r p q xs weaker (&&-eq-true {a = r x} within).1 (rw miss at h))
  ]

  -- A change that keeps a test keeps that some member passes.
  pub any-update :
      (p q : A → Bool) (f : A → A) (xs : List A)
      → ((x : A) → p x ≡ true → p (f x) ≡ true)
      → any p xs ≡ true
      → any p (update q f xs) ≡ true
  any-update p q f [] keeps h = h
  any-update p q f (x ∷ xs) keeps h = elim (Bool-cases (p x)) [
    | inl hit ↦ elim (Bool-cases (q x)) [
      | inl chosen ↦ rw (chosen, keeps x hit) refl
      | inr left ↦ rw (left, hit) refl
    ]
    | inr miss ↦
        or-true_right (p (if q x then f x else x)) (any-update p q f xs keeps (rw miss at h))
  ]

  -- If a change makes a member pass, and there is one to change, then some member passes.
  pub any-update_hit :
      (p q : A → Bool) (f : A → A) (xs : List A)
      → ((x : A) → q x ≡ true → p (f x) ≡ true)
      → any q xs ≡ true
      → any p (update q f xs) ≡ true
  any-update_hit p q f [] makes h = h
  any-update_hit p q f (x ∷ xs) makes h = elim (Bool-cases (q x)) [
    | inl chosen ↦ rw (chosen, makes x chosen) refl
    | inr left ↦
        or-true_right (p (if q x then f x else x)) (any-update_hit p q f xs makes (rw left at h))
  ]

  -- What `find` gives is a member.
  pub find-any :
      (p q : A → Bool) (xs : List A) (x : A) → find p xs ≡ some x → q x ≡ true → any q xs ≡ true
  find-any p q [] x h passes = cc
  find-any p q (y ∷ ys) x h passes = elim (Bool-cases (p y)) [
    | inl hit ↦ rw (some-injective y x (rw hit at h), passes) refl
    | inr miss ↦ or-true_right (q y) (find-any p q ys x (rw miss at h) passes)
  ]

module _ {ℓ κ} {A : Type ℓ} where
  abbrev pub All : (A → Type κ) → List A → Type κ
  All P [] = Unit
  All P (x ∷ xs) = P x × All P xs

  pub All-append : (P : A → Type κ) (xs ys : List A) → All P xs → All P ys → All P (xs ++ ys)
  All-append P [] ys hx hy = hy
  All-append P (x ∷ xs) ys hx hy = (hx.0, All-append P xs ys hx.1 hy)

  pub filter-All : (P : A → Type κ) (p : A → Bool) (xs : List A) → All P xs → All P (filter p xs)
  filter-All P p [] h = h
  filter-All P p (x ∷ xs) h = elim (Bool-cases (p x)) [
    | inl kept ↦ rw kept (h.0, filter-All P p xs h.1)
    | inr dropped ↦ rw dropped (filter-All P p xs h.1)
  ]
