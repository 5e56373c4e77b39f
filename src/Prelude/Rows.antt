-- ===== src/Prelude/Rows.antt =====
-- The laws of the table operations.
use mathlib.Core.Path.{◌≡◌, refl, subst}
use mathlib.Core.Logic.{◌≢◌, inl, inr}
use mathlib.Core.Bool.{Bool, true, false, ◌||◌, ◌&&◌}
use mathlib.Core.Option
use mathlib.Core.Option.{Option, none, some}
use mathlib.Core.List.{List, [], ◌∷◌, ◌++◌}
use native.Mathlib.Omega.{arith}
use yatagarasu.Prelude.Equality.{if◌then◌else◌, Bool-cases}
use yatagarasu.Prelude.Lists.{find, any, filter, count, update, get_last?, All}

abbrev pub adjust {ℓ} : {A : Type ℓ} → (A → Bool) → (A → A) → A → A
adjust q f x = if q x then f x else x

module _ {ℓ} {A : Type ℓ} (p : A → Bool) where
  pub any-append : (xs ys : List A) → any p (xs ++ ys) ≡ (any p xs || any p ys)
  unfolding any
  any-append [] ys = refl
  any-append (x ∷ xs) ys = ground (arith, any-append xs ys)

  pub find-eq-none : (xs : List A) → any p xs ≡ false → find p xs ≡ none
  unfolding any find
  find-eq-none [] h = refl
  find-eq-none (x ∷ xs) h = ground (arith, find-eq-none xs)

  pub any_of_find : (xs : List A) (a : A) → find p xs ≡ some a → any p xs ≡ true
  unfolding any find
  any_of_find [] a h = cc
  any_of_find (x ∷ xs) a h = ground (arith, any_of_find xs a)

  -- the row that is found meets the test
  pub find_meets : (xs : List A) (a : A) → find p xs ≡ some a → p a ≡ true
  unfolding find
  find_meets [] a h = cc
  find_meets (x ∷ xs) a h = ground (arith, find_meets xs a)

  pub any_of_none : (xs : List A) → find p xs ≡ none → any p xs ≡ false
  unfolding any find
  any_of_none [] h = refl
  any_of_none (x ∷ xs) h = ground (arith, any_of_none xs)

  pub count-eq-zero : (xs : List A) → any p xs ≡ false → count p xs ≡ 0
  unfolding any count
  count-eq-zero [] h = refl
  count-eq-zero (x ∷ xs) h = ground (arith, count-eq-zero xs)

  pub any_of_count : (xs : List A) → count p xs ≢ 0 → any p xs ≡ true
  any_of_count xs h = elim (Bool-cases (any p xs)) [
    | inl e ↦ e
    | inr e ↦ absurd (h (count-eq-zero xs e))
  ]

  pub find-append :
      (xs ys : List A) → find p (xs ++ ys) ≡ (if any p xs then find p xs else find p ys)
  unfolding any find
  find-append [] ys = refl
  find-append (x ∷ xs) ys = ground (arith, find-append xs ys)

  pub get_last?-append : (xs : List A) (y : A) → get_last? (xs ++ y ∷ []) ≡ some y
  unfolding get_last?
  get_last?-append [] y = refl
  get_last?-append (x ∷ []) y = refl
  get_last?-append (x ∷ x' ∷ xs) y = get_last?-append (x' ∷ xs) y

  pub filter-append : (xs ys : List A) → filter p (xs ++ ys) ≡ filter p xs ++ filter p ys
  unfolding filter
  filter-append [] ys = refl
  filter-append (x ∷ xs) ys = ground (arith, filter-append xs ys)

  pub find-append_self :
      (xs : List A) (y : A) → find p xs ≡ none → p y ≡ true → find p (xs ++ y ∷ []) ≡ some y
  unfolding find
  find-append_self [] y h hy = ground arith
  find-append_self (x ∷ xs) y h hy = ground (arith, find-append_self xs y)

  -- rows that fail the test come and go unseen
  pub find-append_ne : (xs : List A) (y : A) → p y ≡ false → find p (xs ++ y ∷ []) ≡ find p xs
  unfolding find
  find-append_ne [] y h = ground arith
  find-append_ne (x ∷ xs) y h = ground (arith, find-append_ne xs y h)

  pub any_of_get_last? : (xs : List A) (a : A) → get_last? (filter p xs) ≡ some a → any p xs ≡ true
  unfolding any filter get_last?
  any_of_get_last? [] a h = cc
  any_of_get_last? (x ∷ xs) a h = ground (arith, any_of_get_last? xs a)

  pub filter-count :
      (q : A → Bool) (xs : List A) → count p (filter q xs) ≡ count (λ x. q x && p x) xs
  unfolding filter count
  filter-count q [] = refl
  filter-count q (x ∷ xs) = ground (arith, filter-count q xs)

  module _ (q : A → Bool) (f : A → A) (keeps : (x : A) → p (f x) ≡ p x) where
    pub find-update : (xs : List A) → find p (update q f xs) ≡ Option.map (adjust q f) (find p xs)
    unfolding find update
    find-update [] = refl
    find-update (x ∷ xs) = ground (arith, find-update xs, keeps x)

    pub any-update : (xs : List A) → any p (update q f xs) ≡ any p xs
    unfolding any update
    any-update [] = refl
    any-update (x ∷ xs) = ground (arith, any-update xs, keeps x)

pub All-of_not_any {ℓ} :
    {A : Type ℓ} (p : A → Bool) (xs : List A) → any p xs ≡ false → All (λ x. p x ≡ false) xs
unfolding any
All-of_not_any p [] h = tt
All-of_not_any p (x ∷ xs) h = (ground arith, All-of_not_any p xs (ground arith))

pub All-imp {ℓ κ μ} :
    {A : Type ℓ} (P : A → Type κ) (Q : A → Type μ)
    → ((x : A) → P x → Q x)
    → (xs : List A) → All P xs
    → All Q xs
All-imp P Q f [] h = tt
All-imp P Q f (x ∷ xs) h = (f x h.0, All-imp P Q f xs h.1)

pub not_any_of_All {ℓ} :
    {A : Type ℓ} (p : A → Bool) (xs : List A) → All (λ x. p x ≡ false) xs → any p xs ≡ false
unfolding any
not_any_of_All p [] h = refl
not_any_of_All p (x ∷ xs) h = ground (arith, not_any_of_All p xs h.1)

module _ {ℓ κ} {A : Type ℓ} (P : A → Type κ) where
  pub All-append : (xs ys : List A) → All P xs → All P ys → All P (xs ++ ys)
  All-append [] ys h hs = hs
  All-append (x ∷ xs) ys h hs = (h.0, All-append xs ys h.1 hs)

  pub All-filter : (p : A → Bool) (xs : List A) → All P xs → All P (filter p xs)
  unfolding filter
  All-filter p [] h = tt
  All-filter p (x ∷ xs) h = elim (Bool-cases (p x)) [
    | inl e ↦ rw e (h.0, All-filter p xs h.1)
    | inr e ↦ rw e (All-filter p xs h.1)
  ]

  pub find-All : (p : A → Bool) (xs : List A) (x : A) → All P xs → find p xs ≡ some x → P x
  unfolding find
  find-All p [] x h e = cc
  find-All p (y ∷ ys) x h e = elim (Bool-cases (p y)) [
    | inl met ↦ let same : y ≡ x = ground arith in subst P same h.0
    | inr passed ↦ find-All p ys x h.1 (rw passed at e)
  ]
