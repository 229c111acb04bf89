-- ===== src/Suite/Run.antt =====
-- `Run` of peg/runner.go. Ginkgo and the YAML decoder are parameters.
pub mod Success
use peg.Base.{ℕ, Bool, true, false, Option, none, some, List, [], ◌∷◌, ◌++◌, if◌then◌else◌}
use peg.Text.{Text, lit, is_empty, text_eq}
use peg.World.{
  M, ⊤, Env, Event, Error, message, stop_and_clean, wrapped, Exit, ok, err, panic, ◌>>=◌, ◌>>◌,
  pure, fail, call, try, try_with, return_if, same,
}
use peg.Machine.Download.{UrlParser}
use peg.Machine.Kind.{Machine}
use peg.Machine.New.{new}
use peg.Matcher.Gomega.{Gomega}
use peg.Signals.{add_cleanup_fn}
use peg.Suite.Spec.{AssertionBlock, Config}
use peg.Suite.Assertion.{run_assertion}
use peg.Suite.Generate.{Spec, Walk, generate, before_suite, after_suite}
use peg.Suite.Options.{
  Options, Duration, RunOption, UnmarshalConfig, default_options, apply_options, from_data,
}

pub record SuiteConfig : Type 0 where
  pub fail_fast : Bool
  pub label_filter : Text
  pub emit_spec_progress : Bool
  pub dry_run : Bool
  pub flake_attempts : ℕ
  pub timeout : Duration
  pub parallel_process : ℕ
  pub parallel_total : ℕ

pub record ReporterConfig : Type 0 where
  pub verbose : Bool
  pub very_verbose : Bool
  pub always_emit_ginkgo_writer : Bool
  pub junit_report : Text
  pub json_report : Text
  pub no_color : Bool
  pub slow_spec_threshold : Duration
  pub succinct : Bool

-- `RunSpecs`: it runs what the suite consists of, and says whether it has called `Fail` on the
-- failer. The machine that `BeforeSuite` has made is handed on.
pub record Ginkgo : Type 0 where
  pub run_specs :
      SuiteConfig
      → ReporterConfig
      → List Spec
      → M Machine
      → (Machine → AssertionBlock → M ⊤)
      → (Machine → M ⊤)
      → M Bool

abbrev pub suite_config : Options → SuiteConfig
suite_config o = record {
  fail_fast = o.fail_fast;
  label_filter = o.label_filter;
  emit_spec_progress = o.emit_spec_progress;
  dry_run = o.dry_run;
  flake_attempts = o.flake_attempts;
  timeout = o.timeout;
  parallel_process = o.workers;
  parallel_total = o.workers;
}

abbrev pub reporter_config : Options → ReporterConfig
reporter_config o = record {
  verbose = o.verbose;
  very_verbose = o.very_verbose;
  always_emit_ginkgo_writer = o.always_emit_ginkgo_writer;
  junit_report = o.junit_report;
  json_report = o.json_report;
  no_color = o.no_color;
  slow_spec_threshold = o.slow_spec_threshold;
  succinct = o.succint;
}

abbrev pub open_error : Text → Error → Error
open_error f = wrapped (lit "error while opening '" ++ (f ++ lit "': "))

module _ (E : Env) (U : UrlParser) (G : Gomega) (K : Ginkgo) (unmarshal : UnmarshalConfig)
    (walk : Walk) where
  unfoldable pub read_specfile : Text → M Text
  read_specfile f = do
    r ←
        try_with E (wrapped (lit "can't read input file: "))
          (if text_eq f (lit "-") then Event.read_stdin else Event.read_file f)
    pure r.text

  -- The suite, run on a machine, and the error if it has failed.
  unfoldable pub run_suite : Options → Config → Machine → M ⊤
  run_suite o c m = do
    failed ←
        K.run_specs (suite_config o) (reporter_config o) (generate walk c) (before_suite E m)
          (run_assertion G E) (after_suite E c)
    if failed then fail (message (lit "failed running suites")) else pure tt

  -- What `Run` does with the options: read the file twice over, once for the tests and once for the
  -- machine, make the machine, and run the suite.
  unfoldable pub run_options : Text → Options → M ⊤
  run_options f o = do
    call E Event.handle_signals
    dat ← read_specfile f
    (c, e) ← λ h. (unmarshal dat (record { machine = none; clean = true; tests = [] }), h)
    return_if same e
    m ← new E U (from_data unmarshal dat ∷ o.machine_options)
    add_cleanup_fn E stop_and_clean
    run_suite o c m

  unfoldable pub run : Text → List RunOption → M ⊤
  run f opts = do
    fi ← try_with E (open_error f) (Event.stat f)
    if is_empty f then fail (message (lit "no file passed")) else pure tt
    if fi.flag then fail (message (lit "peg can run only files")) else pure tt
    o ← λ h. (apply_options opts default_options, h)
    run_options f o
