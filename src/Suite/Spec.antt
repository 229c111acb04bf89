-- ===== src/Suite/Spec.antt =====
-- The data of a specfile: peg/config.go. The integers of the file are not negative here.
use peg.Base.{ℕ, Bool, true, false, not, Option, List, [], ◌∷◌, if◌then◌else◌}
use peg.Text.{Text, is_empty, text_eq}
use peg.Config.{MachineConfig}

-- A map with text keys, in the order in which it is walked; Go walks a map in any order.
abbrev pub Map : Type 0 → Type 0
Map A = List (Text × A)

-- The value of a key of a `map[string]string`, empty if the key is missing.
unfoldable pub get : Map Text → Text → Text
get [] key = []
get ((k, v) ∷ m) key = if text_eq k key then v else get m key

-- The fields of `ExpectBlock`: ContainSubstring, Equal, Or, And, ToFail, Not.
mutual
  pub data ExpectBlock : Type 0 where
    expect_block : Text → Text → ExpectBlocks → ExpectBlocks → Bool → Bool → ExpectBlock

  pub data ExpectBlocks : Type 0 where
    nil : ExpectBlocks
    cons : ExpectBlock → ExpectBlocks → ExpectBlocks

abbrev pub contain_substring : ExpectBlock → Text
contain_substring (expect_block c e o a f n) = c

abbrev pub equal : ExpectBlock → Text
equal (expect_block c e o a f n) = e

abbrev pub or : ExpectBlock → ExpectBlocks
or (expect_block c e o a f n) = o

abbrev pub and : ExpectBlock → ExpectBlocks
and (expect_block c e o a f n) = a

abbrev pub to_fail : ExpectBlock → Bool
to_fail (expect_block c e o a f n) = f

abbrev pub negated : ExpectBlock → Bool
negated (expect_block c e o a f n) = n

abbrev is_cons : ExpectBlocks → Bool
is_cons nil = false
is_cons (cons e es) = true

abbrev pub has_or_conditions : ExpectBlock → Bool
has_or_conditions e = is_cons (or e)

abbrev pub has_and_conditions : ExpectBlock → Bool
has_and_conditions e = is_cons (and e)

abbrev pub is_equal : ExpectBlock → Bool
is_equal e = not (is_empty (equal e))

abbrev pub is_contain_substring : ExpectBlock → Bool
is_contain_substring e = not (is_empty (contain_substring e))

pub record OpBlock : Type 0 where
  pub eventually_connect : ℕ
  pub send_file : Map Text
  pub receive_file : Map Text

pub record AssertionBlock : Type 0 where
  pub describe : Text
  pub command : Text
  pub expect : ExpectBlock
  pub pre_ops : List OpBlock
  pub post_ops : List OpBlock
  pub on_host : Bool

pub record Test : Type 0 where
  pub label : Text
  pub describe : Text
  pub assertion : Map (List AssertionBlock)

-- `machine` is a pointer, which can be nil.
pub record Config : Type 0 where
  pub machine : Option MachineConfig
  pub clean : Bool
  pub tests : List Test
