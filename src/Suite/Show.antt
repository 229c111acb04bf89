-- ===== src/Suite/Show.antt =====
-- The methods `Show`, as the lines that they log.
use peg.Base.{Bool, true, false, List, [], ◌∷◌, ◌++◌, ◌==◌, if◌then◌else◌}
use peg.Text.{Text, lit, decimal}
use peg.Suite.Spec.{
  Map, get, ExpectBlock, expect_block, ExpectBlocks, nil, cons, has_or_conditions,
  has_and_conditions, is_equal, is_contain_substring, OpBlock, AssertionBlock,
}

-- The lines for a test that is shown: its own, then those of the alternatives, or else of the
-- further conditions.
abbrev shown : Bool → Text → Bool → List Text → Bool → List Text → List Text
shown false title has_or ors has_and ands = []
shown true title true ors has_and ands = title ∷ (lit "OR" ∷ ors)
shown true title false ors true ands = title ∷ (lit "AND" ∷ ands)
shown true title false ors false ands = title ∷ []

unfoldable mutual
  pub show_expect : ExpectBlock → List Text
  show_expect (expect_block c e o a f n) =
      let ors = show_all o in
      let ands = show_all a in
      let block = expect_block c e o a f n in
      shown (is_contain_substring block) (lit "~> Containsubstring(" ++ (c ++ lit ")"))
        (has_or_conditions block) ors (has_and_conditions block) ands
      ++ shown (is_equal block) (lit "~> isEqual(" ++ (e ++ lit ")")) (has_or_conditions block) ors
          (has_and_conditions block) ands

  pub show_all : ExpectBlocks → List Text
  show_all nil = []
  show_all (cons e es) = show_expect e ++ show_all es

abbrev pub is_nil_map : Map Text → Bool
is_nil_map [] = true
is_nil_map (_ ∷ _) = false

unfoldable pub show_op : OpBlock → List Text
unfolding get
show_op op =
    (if op.eventually_connect == 0
      then []
      else (lit "_ EventuallyConnect(" ++ (decimal op.eventually_connect ++ lit ")")) ∷ [])
    ++ ((if is_nil_map op.send_file
          then []
          else (lit "_ SendFile(src: "
              ++ (get op.send_file (lit "src")
                  ++ (lit ", dst: "
                      ++ (get op.send_file (lit "dst")
                          ++ (lit " perms: "
                              ++ (get op.send_file (lit "permission") ++ lit ")"))))))
            ∷ [])
        ++ (if is_nil_map op.receive_file
            then []
            else (lit "_ ReceiveFile(src: "
                ++ (get op.receive_file (lit "src")
                    ++ (lit ", dst: " ++ (get op.receive_file (lit "dst") ++ lit ")"))))
              ∷ []))

unfoldable pub show_ops : List OpBlock → List Text
unfolding show_op
show_ops [] = []
show_ops (op ∷ ops) = show_op op ++ show_ops ops

abbrev bool_text : Bool → Text
bool_text true = lit "true"
bool_text false = lit "false"

unfoldable pub show_assertion : AssertionBlock → List Text
unfolding show_ops show_expect
show_assertion a =
    (lit "==> Assertion '"
      ++ (a.describe ++ (lit "' [ onhost: " ++ (bool_text a.on_host ++ lit " ]"))))
    ∷ lit "== Pre operations"
    ∷ (show_ops a.pre_ops
        ++ ((lit "== Test Command" ++ (10 ∷ a.command))
            ∷ lit "== Expect"
            ∷ (show_expect a.expect ++ (lit "== Post operations" ∷ show_ops a.post_ops))))
