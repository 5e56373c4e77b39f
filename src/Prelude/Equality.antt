-- ===== src/Prelude/Equality.antt =====
-- Python's `==`, for every type whose equality can be decided, and Boolean tests.
use Prim.Native.Nat.{ℕ, compare, Ordering}
use Prim.Native.String.{String}
use native.Mathlib.Decide.{ℕ_discrete}
use mathlib.Core.Path.{◌≡◌, refl, ap}
use mathlib.Core.Logic.{ite, dite, ◌⊎◌, inl, inr}
use mathlib.Core.Bool.{Bool, true, false, cond, not, Bool-discrete}
use mathlib.Core.List.{List, [], ◌∷◌}
use mathlib.Core.List
use mathlib.Core.Option.{Option, none, some, none-ne-some, some-ne-none, some-injective}
use text.Mathlib.Text
use text.Mathlib.TextEquality.{eq_iff}

infix 1 if◌then◌else◌
abbrev pub if◌then◌else◌ {ℓ} : {A : Type ℓ} → Bool → A → A → A
if b then x else y = cond b x y

abbrev pub ltb : ℕ → ℕ → Bool
ltb a b = elim (compare a b) [ Ordering.lt ↦ true | _ ↦ false ]

abbrev pub leb : ℕ → ℕ → Bool
leb a b = elim (compare a b) [ Ordering.gt ↦ false | _ ↦ true ]

pub record Eq {ℓ} (A : Type ℓ) : Type ℓ where
  pub dec : Discrete A

module _ {ℓ} {A : Type ℓ} ⦃e : Eq A⦄ where
  infix 50 ◌==◌
  abbrev pub ◌==◌ : A → A → Bool
  a == b = ite (e.dec a b) true false

  option_dec : Discrete (Option A)
  option_dec none none = yes refl
  option_dec none (some b) = no (none-ne-some b)
  option_dec (some a) none = no (some-ne-none a)
  option_dec (some a) (some b) =
      dite (e.dec a b) (λ p. yes (ap some p)) (λ n. no (λ p. n (some-injective a b p)))

  instance unfoldable pub option_eq : Eq (Option A)
  unfolding option_dec
  option_eq = record { dec = option_dec }

  list_dec : Discrete (List A)
  list_dec [] [] = yes refl
  list_dec [] (b ∷ bs) = no (λ p. cc)
  list_dec (a ∷ as') [] = no (λ p. cc)
  list_dec (a ∷ as') (b ∷ bs) =
      dite (e.dec a b)
        (λ p. dite (list_dec as' bs) (λ q. yes (cc)) (λ n. no (λ q. n (List.tail-eq_of_cons-eq q))))
        (λ n. no (λ q. n (List.head-eq_of_cons-eq q)))

  instance unfoldable pub list_eq : Eq (List A)
  unfolding list_dec
  list_eq = record { dec = list_dec }

-- Shut in proofs, where a split on `s == t` yields the equation or its negation.
instance unfoldable pub string_eq : Eq String
string_eq = record {
  dec = λ s t.
      dite (Bool-discrete (Text.◌==◌ s t) true) (λ same. yes ((eq_iff s t).0 same))
        (λ differ. no (λ p. differ ((eq_iff s t).1 p)));
}

instance unfoldable pub nat_eq : Eq ℕ
nat_eq = record { dec = ℕ_discrete }

instance unfoldable pub bool_eq : Eq Bool
bool_eq = record { dec = Bool-discrete }

-- `not text` of a `str`, and of a `str | None`
abbrev pub is_empty : String → Bool
is_empty s = s == ""

abbrev pub is_blank : Option String → Bool
is_blank none = true
is_blank (some s) = is_empty s

-- To split on a computed value and keep the equation.
pub Bool-cases : (b : Bool) → (b ≡ true) ⊎ (b ≡ false)
Bool-cases true = inl refl
Bool-cases false = inr refl

pub Option-cases {ℓ} : {A : Type ℓ} (o : Option A) → (o ≡ none) ⊎ ((a : A) × (o ≡ some a))
Option-cases none = inl refl
Option-cases (some a) = inr (a, refl)

pub not-eq-false : (b : Bool) → not b ≡ false → b ≡ true
not-eq-false true h = refl
not-eq-false false h = cc
