-- ===== src/Tests/Suite.antt =====
-- Assertions, the declared specs and the runner.
use mathlib.Core.List.{reverse}
use mathlib.Core.List.Permᴰ
use peg.Base.{◌≡◌, ◌↔◌, refl, true, false, none, some, [], ◌∷◌}
use peg.Text.{lit, text_eq, contains}
use peg.World.{⊤, Event, Exit, History, ok, err, ◌▷◌}
use peg.Matcher.Gomega.{documented, documented-IsDocumented}
use peg.Matcher.Helpers.{expectation}
use peg.Suite.Spec.{ExpectBlock, expect_block, nil, cons, AssertionBlock, Config}
use peg.Suite.Show.{show_expect}
use peg.Suite.Assertion.{run_assertion, check_equal, run_ops}
use peg.Suite.Assertion.Laws.{run_assertion-eq}
use peg.Suite.Assertion.Equal.{check_equal-never, check_equal-or}
use peg.Suite.Generate.{Walk, generate}
use peg.Suite.Generate.Laws.{IsWalk, count, file_count, generate-count}
use peg.Suite.Options.{UnmarshalConfig, verbose}
use peg.Suite.Run.{Ginkgo, run}
use peg.Suite.Run.Success.{IsPassed, run-eq-ok}
use peg.Machine.New.{new, choose_engine}
use peg.Machine.Prepare.{
  prepare, give_id, give_state_dir, give_ssh_port, fetch_iso, fetch_data_source, verify_checksum,
  checksum_pieces, checksum_function, compare_checksum,
}
use peg.Machine.Download.{download, is_valid_url}
use peg.Machine.Random.{rand_string_runes, pick_letters}
use peg.Config.{apply}
use peg.Signals.{add_cleanup_fn}
use peg.Suite.Options.{apply_options, from_data}
use peg.Suite.Run.{run_options, read_specfile, run_suite}
use peg.Suite.Generate.{before_suite}
use peg.Text.FilePath.{join_path}
use peg.Tests.World.{world, machine, alpine, parser}

-- `containString: "aa"`, and `equal: "aaa"`
abbrev contain_block : ExpectBlock
contain_block = expect_block (lit "aa") [] nil nil false false

abbrev equal_block : ExpectBlock
equal_block = expect_block [] (lit "aaa") nil nil false false

abbrev or_block : ExpectBlock
or_block = expect_block [] (lit "bbb") (cons equal_block nil) nil false false

abbrev assertion : ExpectBlock → AssertionBlock
assertion e = record {
  describe = lit "prints";
  command = lit "echo aaa";
  expect = e;
  pre_ops = [];
  post_ops = [];
  on_host = true;
}

contains_runs : contains (lit "xabay") (lit "ab") ≡ true
unfolding contains lit
contains_runs = refl

show_expect_runs : show_expect equal_block ≡ lit "~> isEqual(aaa)" ∷ []
unfolding show_expect lit
show_expect_runs = refl

run_assertion-eq_example :
    run_assertion documented world alpine (assertion contain_block) []
    ≡ (ok tt, [] ▷ Event.exec (lit "echo aaa"))
unfolding lit contains run_ops
run_assertion-eq_example =
    run_assertion-eq documented documented-IsDocumented world alpine (assertion contain_block) []
      {t = []} {t' = [] ▷ Event.exec (lit "echo aaa")} {out = lit "aaa"} {x = none} refl
      (unfold peg.Suite.Assertion.run_command peg.Suite.Assertion.sh in refl)

check_equal-never_example :
    check_equal documented equal_block (lit "aaa") [] ≡ (err (expectation (lit "matcher")), [])
unfolding lit
check_equal-never_example =
    check_equal-never documented documented-IsDocumented equal_block (lit "aaa") [] refl refl refl
      (λ e. cc)

check_equal-or_example :
    check_equal documented or_block (lit "aaa") [] ≡ (err (expectation (lit "matcher")), [])
unfolding lit text_eq
check_equal-or_example =
    check_equal-or documented documented-IsDocumented or_block (lit "aaa") [] refl refl refl

abbrev file : Config
file = record {
  machine = some machine;
  clean = true;
  tests =
      record {
        label = lit "foo";
        describe = lit "bar";
        assertion =
            (lit "Test", assertion contain_block ∷ assertion equal_block ∷ [])
            ∷ (lit "More", assertion or_block ∷ [])
            ∷ [];
      }
      ∷ [];
}

-- It walks every map backwards.
abbrev backwards : Walk
backwards i m = reverse m

backwards-IsWalk : IsWalk backwards
backwards-IsWalk i m = Permᴰ.reverse m

-- The specs of one context.
generate-count_example :
    count (λ s. text_eq s.context (lit "Test")) (generate backwards file)
    ≡ file_count (λ s. text_eq s.context (lit "Test")) file.tests
generate-count_example =
    generate-count (λ s. text_eq s.context (lit "Test")) backwards backwards-IsWalk file

-- A Ginkgo that makes the machine and reports a success, and a decoder that finds the machine.
abbrev passing : Ginkgo
passing = record {
  run_specs = λ s r specs before body after h. let (m, t) = before h in (ok false, t);
}

abbrev machine_decoder : UnmarshalConfig
machine_decoder dat c = ok (record file { machine = some machine }, none)

abbrev passed_run : Exit ⊤ × History
passed_run =
    run world parser documented passing machine_decoder backwards (lit "spec.yaml") (verbose ∷ [])
      []

passed_run_runs : passed_run.0 ≡ ok tt
unfolding run text_eq lit apply_options verbose run_options read_specfile new apply from_data
    prepare give_id give_state_dir give_ssh_port fetch_iso fetch_data_source is_valid_url
    rand_string_runes pick_letters download join_path verify_checksum checksum_pieces
    checksum_function compare_checksum choose_engine add_cleanup_fn run_suite before_suite generate
passed_run_runs = refl

run-eq-ok_example :
    (passed_run ≡ (ok tt, passed_run.1))
    ↔ IsPassed world parser documented passing machine_decoder backwards
        (lit "spec.yaml")
        (verbose ∷ [])
        []
        passed_run.1
run-eq-ok_example =
    run-eq-ok world parser documented passing machine_decoder backwards (lit "spec.yaml")
      (verbose ∷ []) [] passed_run.1
