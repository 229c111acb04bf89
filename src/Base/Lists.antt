-- ===== src/Base/Lists.antt =====
-- Lists measured by native numbers, under the library's names, and predicates by recursion.
use Prim.Native.Nat.{ℕ, suc, ◌+◌}
use mathlib.Core.Path.{◌≡◌, refl, ap}
use mathlib.Core.List.{List, [], ◌∷◌, ◌++◌, map}
use native.Mathlib.Omega.{arith}

module _ {ℓ} {A : Type ℓ} where
  abbrev pub length : List A → ℕ
  length [] = 0
  length (x ∷ xs) = suc (length xs)

  pub length-append : (xs ys : List A) → length (xs ++ ys) ≡ length xs + length ys
  length-append [] ys = omega arith
  length-append (x ∷ xs) ys = omega (arith, length-append xs ys)

pub length-map {ℓ κ} :
    {A : Type ℓ} {B : Type κ} (f : A → B) (xs : List A) → length (map f xs) ≡ length xs
length-map f [] = refl
length-map f (x ∷ xs) = ap suc (length-map f xs)

-- Every element satisfies the predicate.
abbrev pub All {ℓ κ} : {A : Type ℓ} → (A → Type κ) → List A → Type κ
All P [] = Unit
All P (x ∷ xs) = P x × All P xs

pub All-append {ℓ κ} :
    {A : Type ℓ} (P : A → Type κ) (xs ys : List A) → All P xs → All P ys → All P (xs ++ ys)
All-append P [] ys hx hy = hy
All-append P (x ∷ xs) ys hx hy = (hx.0, All-append P xs ys hx.1 hy)

pub All-map {ℓ κ μ} :
    {A : Type ℓ} {B : Type κ} (P : B → Type μ) (f : A → B)
    → ((a : A) → P (f a))
    → (xs : List A) → All P (map f xs)
All-map P f h [] = tt
All-map P f h (x ∷ xs) = (h x, All-map P f h xs)
