-- ===== src/Suite/Options.antt =====
-- The options of the runner: peg/options.go, and the options that read the machine of a specfile.
use peg.Base.{ℕ, Bool, true, false, Option, none, some, List, [], ◌∷◌, ◌++◌}
use peg.Text.{Text}
use peg.World.{Env, Event, Error, Exit, ok, err, panic, ◌>>=◌, pure, panics, call}
use peg.Config.{MachineConfig, MachineOption, zero_config, default_machine_config}
use peg.Suite.Spec.{Config}

-- Durations that are not negative, in nanoseconds.
abbrev pub Duration : Type 0
Duration = ℕ

pub record Options : Type 0 where
  pub workers : ℕ
  pub fail_fast : Bool
  pub emit_spec_progress : Bool
  pub dry_run : Bool
  pub verbose : Bool
  pub very_verbose : Bool
  pub always_emit_ginkgo_writer : Bool
  pub succint : Bool
  pub no_color : Bool
  pub label_filter : Text
  pub flake_attempts : ℕ
  pub timeout : Duration
  pub slow_spec_threshold : Duration
  pub junit_report : Text
  pub json_report : Text
  pub machine_options : List MachineOption

-- The value that `Run` starts from.
abbrev pub default_options : Options
default_options = record {
  workers = 1;
  fail_fast = false;
  emit_spec_progress = false;
  dry_run = false;
  verbose = false;
  very_verbose = false;
  always_emit_ginkgo_writer = false;
  succint = false;
  no_color = false;
  label_filter = [];
  flake_attempts = 0;
  timeout = 0;
  slow_spec_threshold = 0;
  junit_report = [];
  json_report = [];
  machine_options = [];
}

-- An option fails or changes the options; `Run` drops them if one fails.
abbrev pub RunOption : Type 0
RunOption = Options → Exit Options

unfoldable pub verbose : RunOption
verbose o = ok (record o { verbose = true })

unfoldable pub very_verbose : RunOption
very_verbose o = ok (record o { very_verbose = true })

unfoldable pub succint : RunOption
succint o = ok (record o { succint = true })

unfoldable pub no_color : RunOption
no_color o = ok (record o { no_color = true })

unfoldable pub always_emit_ginkgo_writer : RunOption
always_emit_ginkgo_writer o = ok (record o { always_emit_ginkgo_writer = true })

unfoldable pub fail_fast : RunOption
fail_fast o = ok (record o { fail_fast = true })

unfoldable pub emit_spec_progress : RunOption
emit_spec_progress o = ok (record o { emit_spec_progress = true })

unfoldable pub dry_run : RunOption
dry_run o = ok (record o { dry_run = true })

unfoldable pub with_machine_options : List MachineOption → RunOption
with_machine_options d o = ok (record o { machine_options = o.machine_options ++ d })

unfoldable pub with_workers : ℕ → RunOption
with_workers w o = ok (record o { workers = w })

unfoldable pub with_json_report : Text → RunOption
with_json_report d o = ok (record o { json_report = d })

unfoldable pub with_junit_report : Text → RunOption
with_junit_report d o = ok (record o { junit_report = d })

unfoldable pub with_label_filter : Text → RunOption
with_label_filter d o = ok (record o { label_filter = d })

unfoldable pub with_flake_attempts : ℕ → RunOption
with_flake_attempts w o = ok (record o { flake_attempts = w })

-- `time.ParseDuration`, on texts for which the duration is not negative.
abbrev pub ParseDuration : Type 0
ParseDuration = Text → Exit Duration

-- Sets a field to a duration, if the text is one.
abbrev set_duration : Exit Duration → (Duration → Options) → Exit Options
set_duration (ok d) f = ok (f d)
set_duration (err e) f = err e
set_duration panic f = panic

unfoldable pub with_timeout : ParseDuration → Text → RunOption
with_timeout parse s o = set_duration (parse s) λ d. record o { timeout = d }

unfoldable pub with_slow_spec_threshold : ParseDuration → Text → RunOption
with_slow_spec_threshold parse s o =
    set_duration (parse s) λ d. record o { slow_spec_threshold = d }

-- The loop over the options in `Run`.
unfoldable pub apply_options : List RunOption → Options → Exit Options
apply_options [] o = ok o
apply_options (f ∷ fs) o = elim (f o) [
  | ok o' ↦ apply_options fs o'
  | err e ↦ err e
  | panic ↦ panic
]

-- `yaml.Unmarshal` into a configuration, with what stood in it before.
abbrev pub UnmarshalConfig : Type 0
UnmarshalConfig = Text → Config → Exit (Config × Option Error)

-- `*(mc) = *c.Machine`, which panics if the file sets the pointer to nil.
abbrev take_machine : Option MachineConfig → MachineOption
take_machine none mc = panics
take_machine (some m) mc = pure (m, none)

module _ (unmarshal : UnmarshalConfig) where
  -- What both options do with the data of a specfile: an error leaves the configuration alone.
  abbrev from_data_over : MachineConfig → Text → MachineOption
  from_data_over mm dat mc = do
    (c, e) ← λ h. (unmarshal dat (record { machine = some mm; clean = false; tests = [] }), h)
    elim e [ none ↦ take_machine c.machine mc | some x ↦ pure (mc, some x) ]

  unfoldable pub from_data : Text → MachineOption
  from_data dat = from_data_over default_machine_config dat

  -- `peg.FromFile`: the machine of the file, over a configuration without an SSH value.
  unfoldable pub from_file : Env → Text → MachineOption
  from_file E f mc = do
    r ← call E (Event.read_file f)
    elim r.error [
      | none ↦ from_data_over (record zero_config { auto_drive_setup = true }) r.text mc
      | some e ↦ pure (mc, some e)
    ]
