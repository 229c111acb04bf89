-- ===== src/Suite/Assertion/Laws.antt =====
-- When an assertion passes: a formula over the output and the error of its command.
use peg.Base.{
  ◌≡◌, refl, Bool, true, false, not, ◌&&◌, ◌||◌, Option, none, some, ◌∷◌, arith, if◌then◌else◌,
}
use peg.Text.{Text, lit, text_eq, contains}
use peg.World.{M, ⊤, Env, Error, History, ok, err, pure, fail}
use peg.Machine.Kind.{Machine}
use peg.Matcher.Gomega.{Gomega, IsDocumented, accepted_by_some, accepted_by_all}
use peg.Matcher.Helpers.{expectation, meets}
use peg.Suite.Spec.{
  ExpectBlock, ExpectBlocks, nil, cons, contain_substring, equal, or, and, to_fail, negated,
  has_or_conditions, has_and_conditions, is_equal, is_contain_substring, AssertionBlock,
}
use peg.Suite.Assertion.{
  substrings, equals, check_substring, check_equal, run_ops, run_command, run_assertion,
}

abbrev pub some_contained : ExpectBlocks → Text → Bool
some_contained nil out = false
some_contained (cons e es) out = contains out (contain_substring e) || some_contained es out

abbrev pub all_contained : ExpectBlocks → Text → Bool
all_contained nil out = true
all_contained (cons e es) out = contains out (contain_substring e) && all_contained es out

abbrev pub some_equal : ExpectBlocks → Text → Bool
some_equal nil out = false
some_equal (cons e es) out = text_eq out (equal e) || some_equal es out

abbrev pub substring_holds : ExpectBlock → Text → Bool
substring_holds e out =
    let first = contains out (contain_substring e) in
    if is_contain_substring e
    then meets (negated e) (
        if has_or_conditions e
        then first || some_contained (or e) out
        else if has_and_conditions e
        then first && all_contained (and e) out
        else first)
    else true

abbrev pub equal_holds : ExpectBlock → Text → Bool
equal_holds e out =
    if is_equal e
    then meets (negated e) (
        if has_or_conditions e
        then text_eq out (equal e) || some_equal (or e) out
        else text_eq out (contain_substring e))
      && meets (negated e) (text_eq out (equal e))
    else true

abbrev pub error_holds : ExpectBlock → Option Error → Bool
error_holds e none = not (to_fail e)
error_holds e (some x) = to_fail e

-- The command's error and output are as the block expects.
abbrev pub holds : ExpectBlock → Text → Option Error → Bool
holds e out x = error_holds e x && (substring_holds e out && equal_holds e out)

-- The error of an assertion that fails.
abbrev pub failure : ExpectBlock → Option Error → Error
failure e none =
    if error_holds e none then expectation (lit "matcher") else expectation (lit "error")
failure e (some x) = if error_holds e (some x) then expectation (lit "matcher") else x

-- A call that does nothing, or fails the spec.
abbrev pub verdict : Bool → M ⊤
verdict true = pure tt
verdict false = fail (expectation (lit "matcher"))

module _ (G : Gomega) (D : IsDocumented G) where
  some_contained-eq :
      (es : ExpectBlocks) (out : Text)
      → accepted_by_some (substrings G es) out ≡ some_contained es out
  some_contained-eq nil out = refl
  some_contained-eq (cons e es) out =
      ground (arith, D.contain_substring-eq (contain_substring e) out, some_contained-eq es out)

  all_contained-eq :
      (es : ExpectBlocks) (out : Text)
      → accepted_by_all (substrings G es) out ≡ all_contained es out
  all_contained-eq nil out = refl
  all_contained-eq (cons e es) out =
      ground (arith, D.contain_substring-eq (contain_substring e) out, all_contained-eq es out)

  some_equal-eq :
      (es : ExpectBlocks) (out : Text) → accepted_by_some (equals G es) out ≡ some_equal es out
  some_equal-eq nil out = refl
  some_equal-eq (cons e es) out = ground (arith, D.equal-eq (equal e) out, some_equal-eq es out)

  check_substring-eq :
      (e : ExpectBlock) (out : Text) (h : History)
      → check_substring G e out h ≡ verdict (substring_holds e out) h
  unfolding check_substring
  check_substring-eq e out h =
      let first = G.contain_substring (contain_substring e) in
      ground (
        arith,
        D.contain_substring-eq (contain_substring e) out,
        D.or-eq (first ∷ substrings G (or e)) out,
        D.and-eq (first ∷ substrings G (and e)) out,
        some_contained-eq (or e) out,
        all_contained-eq (and e) out,
      )

  pub check_equal-eq :
      (e : ExpectBlock) (out : Text) (h : History)
      → check_equal G e out h ≡ verdict (equal_holds e out) h
  unfolding check_equal
  check_equal-eq e out h = ground (
    arith,
    D.equal-eq (equal e) out,
    D.equal-eq (contain_substring e) out,
    D.or-eq (G.equal (equal e) ∷ equals G (or e)) out,
    some_equal-eq (or e) out,
  )

  -- The operations before the command went through, and the command returned an output and an error
  -- or nil. If they are as the block expects, the rest of the assertion is the operations behind the
  -- command; if not, the assertion fails, and makes no call after the command.
  pub run_assertion-eq :
      (E : Env) (m : Machine) (a : AssertionBlock) (h : History) {t t' : History} {out : Text}
      {x : Option Error}
      → run_ops G E m a.pre_ops h ≡ (ok tt, t)
      → run_command G E m a t ≡ (ok (out, x), t')
      → run_assertion G E m a h ≡ (
          if holds a.expect out x
          then run_ops G E m a.post_ops t'
          else (err (failure a.expect x), t'))
  unfolding run_assertion
  run_assertion-eq E m a h {t} {t'} {out} {x} before returned =
      ground (arith, check_substring-eq a.expect out t', check_equal-eq a.expect out t')
