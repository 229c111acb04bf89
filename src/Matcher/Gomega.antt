-- ===== src/Matcher/Gomega.antt =====
-- The matchers of gomega that the program uses, as a parameter: a matcher accepts a text or not.
use peg.Base.{◌≡◌, refl, Bool, true, false, ◌&&◌, ◌||◌, List, [], ◌∷◌}
use peg.Text.{Text, text_eq, contains}

abbrev pub OmegaMatcher : Type 0
OmegaMatcher = Text → Bool

pub record Gomega : Type 0 where
  pub contain_substring : Text → OmegaMatcher
  pub equal : Text → OmegaMatcher
  pub or : List OmegaMatcher → OmegaMatcher
  pub and : List OmegaMatcher → OmegaMatcher

-- Some matcher accepts the text, and all do.
abbrev pub accepted_by_some : List OmegaMatcher → Text → Bool
accepted_by_some [] out = false
accepted_by_some (m ∷ ms) out = m out || accepted_by_some ms out

abbrev pub accepted_by_all : List OmegaMatcher → Text → Bool
accepted_by_all [] out = true
accepted_by_all (m ∷ ms) out = m out && accepted_by_all ms out

-- What the documentation of gomega says of the four.
pub record IsDocumented (G : Gomega) : Type 0 where
  pub contain_substring-eq : (s out : Text) → G.contain_substring s out ≡ contains out s
  pub equal-eq : (s out : Text) → G.equal s out ≡ text_eq out s
  pub or-eq : (ms : List OmegaMatcher) (out : Text) → G.or ms out ≡ accepted_by_some ms out
  pub and-eq : (ms : List OmegaMatcher) (out : Text) → G.and ms out ≡ accepted_by_all ms out

-- Matchers that do what the documentation says.
abbrev pub documented : Gomega
documented = record {
  contain_substring = λ s out. contains out s;
  equal = λ s out. text_eq out s;
  or = accepted_by_some;
  and = accepted_by_all;
}

pub documented-IsDocumented : IsDocumented documented
documented-IsDocumented = record {
  contain_substring-eq = λ s out. refl;
  equal-eq = λ s out. refl;
  or-eq = λ ms out. refl;
  and-eq = λ ms out. refl;
}
