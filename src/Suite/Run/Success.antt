-- ===== src/Suite/Run/Success.antt =====
-- What the success of `Run` means.
use peg.Base.{
  ◌≡◌, ◌↔◌, refl, ap, true, false, Option, none, some, List, [], ◌∷◌, arith, if◌then◌else◌,
  Option-cases, inl, inr,
}
use peg.Text.{Text, lit, text_eq, is_empty}
use peg.World.{Env, Error, Event, History, Exit, ok, err, panic, ◌▷◌, stop_and_clean}
use peg.Machine.Download.{UrlParser}
use peg.Machine.Kind.{Machine}
use peg.Machine.New.{new}
use peg.Matcher.Gomega.{Gomega}
use peg.Signals.{add_cleanup_fn}
use peg.Suite.Spec.{Config}
use peg.Suite.Assertion.{run_assertion}
use peg.Suite.Generate.{Walk, generate, before_suite, after_suite}
use peg.Suite.Options.{
  Options, RunOption, UnmarshalConfig, default_options, apply_options, from_data,
}
use peg.Suite.Run.{Ginkgo, SuiteConfig, ReporterConfig, run, run_options, run_suite, read_specfile}

-- Ginkgo's configuration for options: each of its fields takes one of them, the workers two.
abbrev pub suite_for : Options → SuiteConfig
suite_for o = record {
  parallel_total = o.workers;
  parallel_process = o.workers;
  timeout = o.timeout;
  flake_attempts = o.flake_attempts;
  dry_run = o.dry_run;
  emit_spec_progress = o.emit_spec_progress;
  label_filter = o.label_filter;
  fail_fast = o.fail_fast;
}

abbrev pub reporter_for : Options → ReporterConfig
reporter_for o = record {
  succinct = o.succint;
  slow_spec_threshold = o.slow_spec_threshold;
  no_color = o.no_color;
  json_report = o.json_report;
  junit_report = o.junit_report;
  always_emit_ginkgo_writer = o.always_emit_ginkgo_writer;
  very_verbose = o.very_verbose;
  verbose = o.verbose;
}

-- One worker, and the zero value of every other option.
abbrev pub initial_options : Options
initial_options = record {
  machine_options = [];
  json_report = [];
  junit_report = [];
  slow_spec_threshold = 0;
  timeout = 0;
  flake_attempts = 0;
  label_filter = [];
  no_color = false;
  succint = false;
  always_emit_ginkgo_writer = false;
  very_verbose = false;
  verbose = false;
  dry_run = false;
  emit_spec_progress = false;
  fail_fast = false;
  workers = 1;
}

-- The options took the first value to the second, one after the other, and none failed.
pub data Applied : List RunOption → Options → Options → Type 0 where
  no_option : {o o' : Options} → o ≡ o' → Applied [] o o'
  option :
      {f : RunOption} {fs : List RunOption} {o o₁ o₂ : Options}
      → f o ≡ ok o₁
      → Applied fs o₁ o₂
      → Applied (f ∷ fs) o o₂

apply_options-if :
    {fs : List RunOption} {o o' : Options} → Applied fs o o' → apply_options fs o ≡ ok o'
unfolding apply_options
apply_options-if (no_option p) = ap ok p
apply_options-if (option p a) = ground (arith, apply_options-if a)

apply_options-Applied :
    (fs : List RunOption) (o : Options) {o' : Options}
    → apply_options fs o ≡ ok o'
    → Applied fs o o'
unfolding apply_options
apply_options-Applied [] o {o'} e = no_option (cc)
apply_options-Applied (f ∷ fs) o {o'} e = by_exit (f o) refl (λ o₁. apply_options-Applied fs o₁)
  where
    by_exit :
        (r : Exit Options)
        → f o ≡ r
        → ((o₁ : Options) → apply_options fs o₁ ≡ ok o' → Applied fs o₁ o')
        → Applied (f ∷ fs) o o'
    by_exit (ok o₁) p rest = option p (rest o₁ (ground arith))
    by_exit (err x) p rest = absurd (ground arith)
    by_exit panic p rest = absurd (ground arith)

-- Where the specfile is read from.
abbrev pub source : Text → Event
source f = if text_eq f (lit "-") then Event.read_stdin else Event.read_file f

module _ (E : Env) (U : UrlParser) (G : Gomega) (K : Ginkgo) (unmarshal : UnmarshalConfig)
    (walk : Walk) where
  run_suite-passed :
      (o : Options) (c : Config) (m : Machine) (h t : History)
      → run_suite E U G K unmarshal walk o c m h ≡ (ok tt, t)
      → K.run_specs
          (suite_for o)
          (reporter_for o)
          (generate walk c)
          (before_suite E m)
          (run_assertion G E)
          (after_suite E c)
          h
        ≡ (ok false, t)
  unfolding run_suite
  run_suite-passed o c m h t e = ground arith

  -- Behind the options every part went through, in this order: the file was read and decoded, `New`
  -- made a machine from it and the options, its cleanup was registered, and Ginkgo ran the specs of
  -- the file on that machine and did not report a failure.
  pub record IsRunOn (f : Text) (o : Options) (h t : History) : Type 0 where
    pub config : Config
    pub machine : Machine
    pub made : History
    pub read_ok : (E (h ▷ Event.handle_signals) (source f)).error ≡ none
    pub decoded :
        unmarshal
          (E (h ▷ Event.handle_signals) (source f)).text
          (record { machine = none; clean = true; tests = [] })
        ≡ ok (config, none)
    pub made_ok :
        new E U
          (from_data unmarshal (E (h ▷ Event.handle_signals) (source f)).text ∷ o.machine_options)
          (h ▷ Event.handle_signals ▷ source f)
        ≡ (ok machine, made)
    pub passed :
        K.run_specs
          (suite_for o)
          (reporter_for o)
          (generate walk config)
          (before_suite E machine)
          (run_assertion G E)
          (after_suite E config)
          (made ▷ Event.add_cleanup stop_and_clean)
        ≡ (ok false, t)

  run_options-IsRunOn :
      (f : Text) (o : Options) (h t : History)
      → run_options E U G K unmarshal walk f o h ≡ (ok tt, t)
      → IsRunOn f o h t
  unfolding run_options read_specfile add_cleanup_fn
  run_options-IsRunOn f o h t e =
      elim (Option-cases (E (h ▷ Event.handle_signals) (source f)).error) [
        | inl p ↦
            by_decoded
              (unmarshal (E (h ▷ Event.handle_signals) (source f)).text
                (record { machine = none; clean = true; tests = [] }))
              p refl
        | inr (x, p) ↦ absurd (ground arith)
      ]
    where
      by_made :
          (c : Config) (r : Exit Machine × History)
          → (E (h ▷ Event.handle_signals) (source f)).error ≡ none
          → unmarshal
              (E (h ▷ Event.handle_signals) (source f)).text
              (record { machine = none; clean = true; tests = [] })
            ≡ ok (c, none)
          → new E U
              (from_data unmarshal (E (h ▷ Event.handle_signals) (source f)).text
                ∷ o.machine_options)
              (h ▷ Event.handle_signals ▷ source f)
            ≡ r
          → IsRunOn f o h t
      by_made c (ok m, made) p q n = record {
        config = c;
        machine = m;
        made = made;
        read_ok = p;
        decoded = q;
        made_ok = n;
        passed = run_suite-passed o c m (made ▷ Event.add_cleanup stop_and_clean) t (ground arith);
      }
      by_made c (err x, made) p q n = absurd (ground arith)
      by_made c (panic, made) p q n = absurd (ground arith)

      by_decoded :
          (r : Exit (Config × Option Error))
          → (E (h ▷ Event.handle_signals) (source f)).error ≡ none
          → unmarshal
              (E (h ▷ Event.handle_signals) (source f)).text
              (record { machine = none; clean = true; tests = [] })
            ≡ r
          → IsRunOn f o h t
      by_decoded (ok (c, none)) p q =
          by_made c
            (new E U
              (from_data unmarshal (E (h ▷ Event.handle_signals) (source f)).text
                ∷ o.machine_options)
              (h ▷ Event.handle_signals ▷ source f))
            p q refl
      by_decoded (ok (c, some x)) p q = absurd (ground arith)
      by_decoded (err x) p q = absurd (ground arith)
      by_decoded panic p q = absurd (ground arith)

  run_options-passes :
      (f : Text) (o : Options) (h t : History)
      → IsRunOn f o h t
      → run_options E U G K unmarshal walk f o h ≡ (ok tt, t)
  unfolding run_options read_specfile run_suite add_cleanup_fn
  run_options-passes f o h t p =
      let read_ok = p.read_ok in
      let decoded = p.decoded in let made_ok = p.made_ok in let passed = p.passed in ground arith

  -- The name was looked up and is that of a file, no option failed, and the rest went through.
  pub record IsPassed (f : Text) (opts : List RunOption) (h t : History) : Type 0 where
    pub options : Options
    pub found : (E h (Event.stat f)).error ≡ none
    pub named : is_empty f ≡ false
    pub is_file : (E h (Event.stat f)).flag ≡ false
    pub applied : Applied opts initial_options options
    pub run_on : IsRunOn f options (h ▷ Event.stat f) t

  run-passes :
      (f : Text) (opts : List RunOption) (h t : History)
      → IsPassed f opts h t
      → run E U G K unmarshal walk f opts h ≡ (ok tt, t)
  unfolding run
  run-passes f opts h t p =
      let found = p.found in
      let named = p.named in
      let is_file = p.is_file in
      ground (
        arith,
        apply_options-if p.applied,
        run_options-passes f p.options (h ▷ Event.stat f) t p.run_on,
      )

  run-IsPassed :
      (f : Text) (opts : List RunOption) (h t : History)
      → run E U G K unmarshal walk f opts h ≡ (ok tt, t)
      → IsPassed f opts h t
  unfolding run
  run-IsPassed f opts h t e = by_options (apply_options opts default_options) refl
    where
      by_options : (r : Exit Options) → apply_options opts default_options ≡ r → IsPassed f opts h t
      by_options (ok o) p = record {
        options = o;
        found = ground arith;
        named = ground arith;
        is_file = ground arith;
        applied = apply_options-Applied opts initial_options p;
        run_on = run_options-IsRunOn f o (h ▷ Event.stat f) t (ground arith);
      }
      by_options (err x) p = absurd (ground arith)
      by_options panic p = absurd (ground arith)

  -- `Run` returns nil exactly if the specfile was found and is a file with a name, no option failed,
  -- the file was read and decoded, `New` made a machine from it and the options, and Ginkgo ran the
  -- specs of the file with the options, and reported no failure.
  pub run-eq-ok :
      (f : Text) (opts : List RunOption) (h t : History)
      → (run E U G K unmarshal walk f opts h ≡ (ok tt, t)) ↔ IsPassed f opts h t
  run-eq-ok f opts h t = (run-IsPassed f opts h t, run-passes f opts h t)
