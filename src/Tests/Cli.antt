-- ===== src/Tests/Cli.antt =====
-- The flags of the command line.
use peg.Base.{◌≡◌, true, false, none, [], ◌∷◌}
use peg.Text.{lit}
use peg.World.{external, ok, err}
use peg.Config.{apply}
use peg.Suite.Options as Suite
use peg.Suite.Options.{ParseDuration, apply_options, default_options}
use peg.Cli.{Flags, machine_opts, peg_opts, is_given}
use peg.Cli.Laws.{overridden, apply-machine_opts}
use peg.Cli.Runner.{flagged, then_apply, apply_if, apply_options-peg_opts}
use peg.Tests.World.{machine}

abbrev flags : Flags
flags = record {
  label = [];
  iso = lit "other.iso";
  iso_checksum = [];
  cpu = lit "4";
  memory = [];
  drive = lit "b.img";
  state = [];
  loglevel = lit "debug";
  json_report = [];
  junit_report = [];
  timeout = lit "1h";
  image = [];
  slow_spec_threshold = [];
  workers = 1;
  flake_attempts = 0;
  fail_fast = false;
  dry_run = false;
  emit_spec_progress = false;
  qemu = true;
  verbose = false;
  very_verbose = false;
  succint = false;
  always_emit_writer = false;
  no_color = false;
  vbox = true;
}

apply-machine_opts_example :
    apply (machine_opts flags) machine [] ≡ (ok (overridden flags machine, none), [])
apply-machine_opts_example = apply-machine_opts flags machine []

-- It knows the hour.
abbrev parse : ParseDuration
parse (digit ∷ unit) = ok 3600000000000
parse [] = err (external (lit "invalid duration"))

apply_options-peg_opts_example :
    apply_options (peg_opts parse flags) default_options
    ≡ then_apply
        (apply_if
          (is_given flags.slow_spec_threshold)
          (Suite.with_slow_spec_threshold parse flags.slow_spec_threshold)
          (flagged flags default_options))
        (apply_if (is_given flags.timeout) (Suite.with_timeout parse flags.timeout))
apply_options-peg_opts_example = apply_options-peg_opts parse flags default_options
