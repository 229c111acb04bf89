-- ===== src/Suite/Generate.antt =====
-- `Generate` of peg/generator.go: the specs that it declares, and the functions around the suite.
pub mod Laws
use peg.Base.{ℕ, ◌+◌, List, [], ◌∷◌, ◌++◌, map, if◌then◌else◌}
use peg.Text.{Text}
use peg.World.{M, ⊤, Env, ◌>>=◌, ◌>>◌, pure}
use peg.Machine.Kind.{Machine}
use peg.Machine.Qemu.Create.{given}
use peg.Matcher.Dispatch as Dispatch
use peg.Matcher.Helpers.{expect_no_error}
use peg.Suite.Spec.{Map, AssertionBlock, Test, Config}

-- An `It` with the `Describe`, its label, and the `Context` that it stands in.
pub record Spec : Type 0 where
  pub container : Text
  pub label : Text
  pub context : Text
  pub assertion : AssertionBlock

-- The order in which the run of the program walks the map of the test at a position: Go walks a map
-- in an order of its own, a new one each time.
abbrev pub Walk : Type 0
Walk = ℕ → Map (List AssertionBlock) → Map (List AssertionBlock)

-- The loop over the assertions of a context.
abbrev its : Test → Text → List AssertionBlock → List Spec
its t context =
    map λ a. record { container = t.describe; label = t.label; context = context; assertion = a }

-- The loop over the contexts of a test, as they are walked.
unfoldable pub contexts : Test → Map (List AssertionBlock) → List Spec
contexts t [] = []
contexts t ((context, assertions) ∷ m) = its t context assertions ++ contexts t m

module _ (walk : Walk) where
  -- The loop over the tests, from a position.
  unfoldable pub specs : ℕ → List Test → List Spec
  unfolding contexts
  specs i [] = []
  specs i (t ∷ tests) = contexts t (walk i t.assertion) ++ specs (i + 1) tests

  unfoldable pub generate : Config → List Spec
  generate c = specs 0 c.tests

module _ (E : Env) where
  -- `BeforeSuite`, over `context.Background()`.
  unfoldable pub before_suite : Machine → M Machine
  before_suite m = do (m', ctx, e) ← Dispatch.create E m (given 0); expect_no_error e; pure m'

  -- `AfterSuite`
  unfoldable pub after_suite : Config → Machine → M ⊤
  after_suite c m = do Dispatch.stop E m; if c.clean then Dispatch.clean E m else pure tt
