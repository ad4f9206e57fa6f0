-- ===== src/Base/Folds.antt =====
-- Go's loops `for _, x := range xs { acc = f(x, acc) }`.
use mathlib.Core.Path.{◌≡◌, refl, sym, ap, ◌∙◌}
use mathlib.Core.List.{List, [], ◌∷◌, ◌++◌, foldr, Perm}
use mathlib.Core.List.Perm

abbrev pub loop {ℓ κ} : {A : Type ℓ} {B : Type κ} → (A → B → B) → List A → B → B
loop f [] b = b
loop f (x ∷ xs) b = loop f xs (f x b)

pub loop-append {ℓ κ} :
    {A : Type ℓ} {B : Type κ} (f : A → B → B) (xs ys : List A) (b : B)
    → loop f (xs ++ ys) b ≡ loop f ys (loop f xs b)
loop-append f [] ys b = refl
loop-append f (x ∷ xs) ys b = loop-append f xs ys (f x b)

module _ {ℓ κ} {A : Type ℓ} {B : Type κ} (B_set : IsSet B) (f : A → B → B)
    (f_comm : (a a' : A) (b : B) → f a (f a' b) ≡ f a' (f a b)) where
  pub loop_step : (xs : List A) (a : A) (b : B) → loop f xs (f a b) ≡ f a (loop f xs b)
  loop_step [] a b = refl
  loop_step (x ∷ xs) a b = ap (loop f xs) (f_comm x a b) ∙ loop_step xs a (f x b)

  loop-foldr : (xs : List A) (b : B) → loop f xs b ≡ foldr f b xs
  loop-foldr [] b = refl
  loop-foldr (x ∷ xs) b = loop_step xs x b ∙ ap (f x) (loop-foldr xs b)

  -- The order of the entries does not matter to a loop whose steps commute.
  pub loop-perm : {xs ys : List A} → Perm xs ys → (b : B) → loop f xs b ≡ loop f ys b
  loop-perm {xs} {ys} p b =
      loop-foldr xs b ∙ Perm.foldr-eq B_set f f_comm p b ∙ sym (loop-foldr ys b)
