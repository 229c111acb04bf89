-- ===== src/Cli/Runner.antt =====
-- The options of the runner that the flags make.
use peg.Base.{◌≡◌, refl, sym, ap, ◌∙◌, Bool, true, false, ◌||◌, List, [], ◌∷◌, ◌++◌, arith}
use peg.World.{Exit, ok, err, panic}
use peg.Suite.Options as Suite
use peg.Suite.Options.{Options, RunOption, ParseDuration, apply_options}
use peg.Cli.{Flags, append_if, is_given, machine_opts, peg_opts}

-- The second function on what the first leaves, unless that failed.
abbrev pub then_apply : Exit Options → RunOption → Exit Options
then_apply (ok o) f = f o
then_apply (err e) f = err e
then_apply panic f = panic

abbrev pub apply_if : Bool → RunOption → RunOption
apply_if true f o = f o
apply_if false f o = ok o

apply_options-append :
    (fs : List RunOption) (f : RunOption) (o : Options)
    → apply_options (fs ++ (f ∷ [])) o ≡ then_apply (apply_options fs o) f
unfolding apply_options
apply_options-append [] f o = ground arith
apply_options-append (g ∷ fs) f o = by_exit (g o) refl (apply_options-append fs f)
  where
    by_exit :
        (r : Exit Options)
        → g o ≡ r
        → ((o' : Options) → apply_options (fs ++ (f ∷ [])) o' ≡ then_apply (apply_options fs o') f)
        → apply_options (g ∷ (fs ++ (f ∷ []))) o ≡ then_apply (apply_options (g ∷ fs) o) f
    by_exit (ok o') p ih = ground (arith, ih o')
    by_exit (err e) p ih = ground arith
    by_exit panic p ih = ground arith

-- An option behind others, if it is there.
after :
    (b : Bool) (f : RunOption) (fs : List RunOption) (o : Options) (r : Exit Options)
    → apply_options fs o ≡ r
    → apply_options (append_if b f fs) o ≡ then_apply r (apply_if b f)
after true f fs o r e = apply_options-append fs f o ∙ ap (λ x. then_apply x f) e
after false f fs o (ok o') e = e
after false f fs o (err x) e = e
after false f fs o panic e = e

-- The flags over options, but the two durations.
abbrev pub flagged : Flags → Options → Options
flagged c o = record o {
  label_filter = c.label;
  machine_options = o.machine_options ++ machine_opts c;
  workers = c.workers;
  flake_attempts = c.flake_attempts;
  json_report = c.json_report;
  junit_report = c.junit_report;
  dry_run = c.dry_run || o.dry_run;
  fail_fast = c.fail_fast || o.fail_fast;
  verbose = c.verbose || o.verbose;
  very_verbose = c.very_verbose || o.very_verbose;
  succint = c.succint || o.succint;
  always_emit_ginkgo_writer = c.always_emit_writer || o.always_emit_ginkgo_writer;
  no_color = c.no_color || o.no_color;
  emit_spec_progress = c.emit_spec_progress || o.emit_spec_progress;
}

-- An option that sets a field to true, behind others that do not fail.
after_flag :
    (b : Bool) (f : RunOption) (set : Bool → Options → Options)
    → ((o : Options) → f o ≡ ok (set true o))
    → ((o : Options) → set false o ≡ o)
    → (fs : List RunOption) (o : Options) {o' : Options} → apply_options fs o ≡ ok o'
    → apply_options (append_if b f fs) o ≡ ok (set b o')
after_flag true f set sets keeps fs o {o'} e = after true f fs o (ok o') e ∙ sets o'
after_flag false f set sets keeps fs o {o'} e = e ∙ ap ok (sym (keeps o'))

flags-eq :
    (c : Flags) (o : Options)
    → apply_options
        (append_if c.emit_spec_progress Suite.emit_spec_progress (
          append_if c.no_color Suite.no_color (
            append_if c.always_emit_writer Suite.always_emit_ginkgo_writer (
              append_if c.succint Suite.succint (
                append_if c.very_verbose Suite.very_verbose (
                  append_if c.verbose Suite.verbose (
                    append_if c.fail_fast Suite.fail_fast (
                      append_if c.dry_run Suite.dry_run (
                        Suite.with_label_filter c.label
                        ∷ Suite.with_machine_options (machine_opts c)
                        ∷ Suite.with_workers c.workers
                        ∷ Suite.with_flake_attempts c.flake_attempts
                        ∷ Suite.with_json_report c.json_report
                        ∷ Suite.with_junit_report c.junit_report
                        ∷ [])))))))))
        o
      ≡ ok (flagged c o)
unfolding apply_options Suite.dry_run Suite.fail_fast Suite.verbose Suite.very_verbose Suite.succint
    Suite.always_emit_ginkgo_writer Suite.no_color Suite.emit_spec_progress Suite.with_label_filter
    Suite.with_machine_options Suite.with_workers Suite.with_flake_attempts Suite.with_json_report
    Suite.with_junit_report
flags-eq c o =
    (after_flag c.emit_spec_progress Suite.emit_spec_progress
      (λ b o. record o { emit_spec_progress = b || o.emit_spec_progress }) (λ o. refl) (λ o. refl) _
      o
      (after_flag c.no_color Suite.no_color (λ b o. record o { no_color = b || o.no_color })
        (λ o. refl) (λ o. refl) _ o
        (after_flag c.always_emit_writer Suite.always_emit_ginkgo_writer
          (λ b o. record o { always_emit_ginkgo_writer = b || o.always_emit_ginkgo_writer })
          (λ o. refl) (λ o. refl) _ o
          (after_flag c.succint Suite.succint (λ b o. record o { succint = b || o.succint })
            (λ o. refl) (λ o. refl) _ o
            (after_flag c.very_verbose Suite.very_verbose
              (λ b o. record o { very_verbose = b || o.very_verbose }) (λ o. refl) (λ o. refl) _ o
              (after_flag c.verbose Suite.verbose (λ b o. record o { verbose = b || o.verbose })
                (λ o. refl) (λ o. refl) _ o
                (after_flag c.fail_fast Suite.fail_fast
                  (λ b o. record o { fail_fast = b || o.fail_fast }) (λ o. refl) (λ o. refl) _ o
                  (after_flag c.dry_run Suite.dry_run (λ b o. record o { dry_run = b || o.dry_run })
                    (λ o. refl) (λ o. refl) _ o refl))))))))

-- Over any options, the flags set the six values, turn the eight switches on that are given, append
-- the machine's options, and never fail so far; then the threshold and the timeout are parsed, in
-- this order, each if it is given.
pub apply_options-peg_opts :
    (parse : ParseDuration) (c : Flags) (o : Options)
    → apply_options (peg_opts parse c) o
      ≡ then_apply
          (apply_if
            (is_given c.slow_spec_threshold)
            (Suite.with_slow_spec_threshold parse c.slow_spec_threshold)
            (flagged c o))
          (apply_if (is_given c.timeout) (Suite.with_timeout parse c.timeout))
unfolding peg_opts
apply_options-peg_opts parse c o =
    after (is_given c.timeout) (Suite.with_timeout parse c.timeout) _ o _ (
      after (is_given c.slow_spec_threshold)
        (Suite.with_slow_spec_threshold parse c.slow_spec_threshold) _ o (ok (flagged c o))
        (flags-eq c o))
