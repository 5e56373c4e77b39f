-- ===== src/Cmux/Outbox/Unique.antt =====
-- Keys of the tables of plugins/cmux/yatagarasu_cmux/event_outbox.py: no two rows are the same.
use yatagarasu.Prelude.{Bool, false, List, [], ◌∷◌, ◌++◌, any, ◌≡◌, refl, ◌∙◌, arith}
use yatagarasu.Prelude.Rows.{any-append}

-- no two of the rows are the same
abbrev pub IsUnique {ℓ} : {A : Type ℓ} → (A → A → Bool) → List A → Type 0
IsUnique same [] = Unit
IsUnique same (x ∷ xs) = (any (same x) xs ≡ false) × IsUnique same xs

module _ {ℓ} {A : Type ℓ} (same : A → A → Bool) where
  pub IsUnique-append :
      ((a b : A) → same a b ≡ same b a)
      → (xs : List A) (y : A) → IsUnique same xs
      → any (same y) xs ≡ false
      → IsUnique same (xs ++ y ∷ [])
  unfolding any
  IsUnique-append swap [] y unique new = (refl, tt)
  IsUnique-append swap (x ∷ xs) y unique new = (
    any-append (same x) xs (y ∷ []) ∙ ground (arith, swap x y),
    IsUnique-append swap xs y unique.1 (ground arith),
  )
