-- ===== src/Suite/Assertion.antt =====
-- `runOp` and `runAssertion` of peg/generator.go.
pub mod Laws
pub mod Equal
use peg.Base.{
  ℕ, Bool, true, false, not, ◌&&◌, ◌||◌, Option, none, some, List, [], ◌∷◌, ◌++◌, ◌==◌,
  if◌then◌else◌,
}
use peg.Text.{Text, lit, is_empty, text_eq, contains}
use peg.World.{
  M, ⊤, Env, Event, Reply, Error, message, ◌>>=◌, ◌>>◌, pure, fail, call, return_if, same,
}
use peg.Machine.Kind.{Machine}
use peg.Matcher.Gomega.{Gomega, OmegaMatcher}
use peg.Matcher.Dispatch as Dispatch
use peg.Matcher.Helpers.{expectation, expect, expect_no_error, machine_eventually_connects}
use peg.Suite.Spec.{
  Map, get, ExpectBlock, ExpectBlocks, nil, cons, contain_substring, equal, or, and, to_fail,
  negated, has_or_conditions, has_and_conditions, is_equal, is_contain_substring, OpBlock,
  AssertionBlock,
}
use peg.Suite.Show.{is_nil_map}

-- `Expect(err).To(HaveOccurred())` where the command should fail, else `ToNot`
abbrev pub check_error : Bool → Option Error → M ⊤
check_error true none = fail (expectation (lit "error"))
check_error true (some e) = pure tt
check_error false e = expect_no_error e

module _ (G : Gomega) where
  -- The matchers that the loops append for the alternatives and for the further conditions.
  abbrev pub substrings : ExpectBlocks → List OmegaMatcher
  substrings nil = []
  substrings (cons e es) = G.contain_substring (contain_substring e) ∷ substrings es

  abbrev pub equals : ExpectBlocks → List OmegaMatcher
  equals nil = []
  equals (cons e es) = G.equal (equal e) ∷ equals es

  unfoldable pub check_substring : ExpectBlock → Text → M ⊤
  check_substring e out =
      let first = G.contain_substring (contain_substring e) in
      if is_contain_substring e
      then (if has_or_conditions e
          then expect (negated e) (G.or (first ∷ substrings (or e))) out
          else if has_and_conditions e
          then expect (negated e) (G.and (first ∷ substrings (and e))) out
          else expect (negated e) first out)
      else pure tt

  -- Without alternatives the text that the output is compared with is `ContainSubstring`; behind
  -- both branches it is compared with `Equal`.
  unfoldable pub check_equal : ExpectBlock → Text → M ⊤
  check_equal e out =
      if is_equal e
      then (do
        if has_or_conditions e
            then expect (negated e) (G.or (G.equal (equal e) ∷ equals (or e))) out
            else expect (negated e) (G.equal (contain_substring e)) out
        expect (negated e) (G.equal (equal e)) out)
      else pure tt

  module _ (E : Env) where
    unfoldable pub run_op : Machine → OpBlock → M ⊤
    unfolding get
    run_op m op = do
      if op.eventually_connect == 0
          then pure tt
          else machine_eventually_connects E G m (op.eventually_connect ∷ [])
      if is_nil_map op.send_file
          then pure tt
          else Dispatch.send_file E m (get op.send_file (lit "src")) (get op.send_file (lit "dst"))
              (get op.send_file (lit "permission"))
      if is_nil_map op.receive_file
          then pure tt
          else Dispatch.receive_file E m (get op.receive_file (lit "src"))
              (get op.receive_file (lit "dst"))

    unfoldable pub run_ops : Machine → List OpBlock → M ⊤
    run_ops m [] = pure tt
    run_ops m (op ∷ ops) = run_op m op >> run_ops m ops

    -- `utils.SH`
    unfoldable pub sh : Text → M (Text × Option Error)
    sh cmd = do r ← call E (Event.exec cmd); pure (r.text, r.error)

    unfoldable pub run_command : Machine → AssertionBlock → M (Text × Option Error)
    run_command m a = if a.on_host then sh a.command else Dispatch.command E m a.command

    unfoldable pub run_assertion : Machine → AssertionBlock → M ⊤
    run_assertion m a = do
      run_ops m a.pre_ops
      (out, e) ← run_command m a
      check_error (to_fail a.expect) e
      check_substring a.expect out
      check_equal a.expect out
      run_ops m a.post_ops
