-- ===== src/Suite/Assertion/Equal.antt =====
-- What the block `equal` of a specfile is worth.
use peg.Base.{◌≡◌, ◌≢◌, ◌∙◌, ap, Bool, true, false, arith, if◌then◌else◌}
use peg.Text.{Text, lit, text_eq}
use peg.Text.Laws.{text_eq_iff}
use peg.World.{ok, err, History}
use peg.Matcher.Gomega.{Gomega, IsDocumented}
use peg.Matcher.Helpers.{expectation}
use peg.Suite.Spec.{ExpectBlock, contain_substring, equal, negated, has_or_conditions, is_equal}
use peg.Suite.Assertion.{check_equal}
use peg.Suite.Assertion.Laws.{equal_holds, verdict, check_equal-eq}

equal_holds-never :
    (e : ExpectBlock) (out : Text)
    → is_equal e ≡ true
    → has_or_conditions e ≡ false
    → negated e ≡ false
    → contain_substring e ≢ equal e
    → equal_holds e out ≡ false
equal_holds-never e out q o n d =
    ground (arith, text_eq_iff out (equal e), text_eq_iff out (contain_substring e))

equal_holds-or :
    (e : ExpectBlock) (out : Text)
    → is_equal e ≡ true
    → has_or_conditions e ≡ true
    → negated e ≡ false
    → equal_holds e out ≡ text_eq out (equal e)
equal_holds-or e out q o n = ground arith

module _ (G : Gomega) (D : IsDocumented G) where
  -- A block asks for equality with a text, has no alternatives, is not negated, and its
  -- `containString` is not that same text: the check fails for every output.
  pub check_equal-never :
      (e : ExpectBlock) (out : Text) (h : History)
      → is_equal e ≡ true
      → has_or_conditions e ≡ false
      → negated e ≡ false
      → contain_substring e ≢ equal e
      → check_equal G e out h ≡ (err (expectation (lit "matcher")), h)
  check_equal-never e out h q o n d =
      check_equal-eq G D e out h ∙ ap (λ (b : Bool). verdict b h) (equal_holds-never e out q o n d)

  -- A block asks for equality with a text, has alternatives, and is not negated: the check passes
  -- for that text and for no other output, whatever the alternatives are.
  pub check_equal-or :
      (e : ExpectBlock) (out : Text) (h : History)
      → is_equal e ≡ true
      → has_or_conditions e ≡ true
      → negated e ≡ false
      → check_equal G e out h
        ≡ (if text_eq out (equal e) then (ok tt, h) else (err (expectation (lit "matcher")), h))
  check_equal-or e out h q o n =
      ground (arith, check_equal-eq G D e out h, equal_holds-or e out q o n)
