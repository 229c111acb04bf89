-- ===== src/Suite/Generate/Laws.antt =====
-- Which specs `Generate` declares, in whatever order the maps are walked.
use mathlib.Core.List.{Permᴰ}
use peg.Base.{ℕ, ◌+◌, ◌≡◌, refl, ap, ◌∙◌, Bool, List, [], ◌∷◌, ◌++◌, arith, if◌then◌else◌}
use peg.Text.{Text}
use peg.Suite.Spec.{Map, AssertionBlock, Test, Config}
use peg.Suite.Generate.{Spec, Walk, contexts, specs, generate}

-- A walk visits every entry of a map once.
abbrev pub IsWalk : Walk → Type 0
IsWalk walk = (i : ℕ) (m : Map (List AssertionBlock)) → Permᴰ (walk i m) m

module _ (p : Spec → Bool) where
  abbrev one : Spec → ℕ
  one s = if p s then 1 else 0

  -- How many of the specs are among those that `p` picks.
  abbrev pub count : List Spec → ℕ
  count [] = 0
  count (s ∷ ss) = one s + count ss

  -- How many assertions of a context are picked, under the texts of the test and the context.
  abbrev pub context_count : Test → Text → List AssertionBlock → ℕ
  context_count t context [] = 0
  context_count t context (a ∷ as') =
      one (record { container = t.describe; label = t.label; context = context; assertion = a })
      + context_count t context as'

  abbrev pub test_count : Test → Map (List AssertionBlock) → ℕ
  test_count t [] = 0
  test_count t ((context, as') ∷ m) = context_count t context as' + test_count t m

  abbrev pub file_count : List Test → ℕ
  file_count [] = 0
  file_count (t ∷ tests) = test_count t t.assertion + file_count tests

  count-append : (xs ys : List Spec) → count (xs ++ ys) ≡ count xs + count ys
  count-append [] ys = omega arith
  count-append (x ∷ xs) ys = omega (arith, count-append xs ys)

  -- The order of the entries does not matter.
  test_count-perm :
      (t : Test) {m n : Map (List AssertionBlock)} → Permᴰ m n → test_count t m ≡ test_count t n
  test_count-perm t Permᴰ.nil = refl
  test_count-perm t (Permᴰ.cons e r) =
      let counted = ap (λ (x : Text × List AssertionBlock). context_count t x.0 x.1) e in
      omega (arith, counted, test_count-perm t r)
  test_count-perm t (Permᴰ.swap e f) =
      let first = ap (λ (x : Text × List AssertionBlock). context_count t x.0 x.1) e in
      let second = ap (λ (x : Text × List AssertionBlock). context_count t x.0 x.1) f in
      omega (arith, first, second)
  test_count-perm t (Permᴰ.trans r q) = test_count-perm t r ∙ test_count-perm t q

  context_count-eq :
      (t : Test) (context : Text) (as' : List AssertionBlock) (m : Map (List AssertionBlock))
      → count (contexts t ((context, as') ∷ m)) ≡ context_count t context as' + count (contexts t m)
  unfolding contexts
  context_count-eq t context [] m = omega arith
  context_count-eq t context (a ∷ as') m = omega (arith, context_count-eq t context as' m)

  test_count-eq : (t : Test) (m : Map (List AssertionBlock)) → count (contexts t m) ≡ test_count t m
  unfolding contexts
  test_count-eq t [] = refl
  test_count-eq t ((context, as') ∷ m) =
      omega (arith, context_count-eq t context as' m, test_count-eq t m)

  module _ (walk : Walk) (walks : IsWalk walk) where
    file_count-eq : (i : ℕ) (tests : List Test) → count (specs walk i tests) ≡ file_count tests
    unfolding specs
    file_count-eq i [] = refl
    file_count-eq i (t ∷ tests) = omega (
      arith,
      count-append (contexts t (walk i t.assertion)) (specs walk (i + 1) tests),
      test_count-eq t (walk i t.assertion),
      test_count-perm t (walks i t.assertion),
      file_count-eq (i + 1) tests,
    )

    -- In whatever order the maps are walked, `Generate` declares the assertions of the file, each as
    -- often as it stands there, under the description and label of its test and in its context: of
    -- any kind of specs it declares as many as the file has.
    pub generate-count : (c : Config) → count (generate walk c) ≡ file_count c.tests
    unfolding generate
    generate-count c = file_count-eq 0 c.tests
