-- ===== src/Cli.antt =====
-- main.go: the action of the command line. The flags arrive parsed; their declarations and the help
-- text are left out.
pub mod Laws
pub mod Runner
use peg.Base.{ℕ, Bool, true, false, ◌&&◌, Option, none, some, List, [], ◌∷◌, ◌++◌, if◌then◌else◌}
use peg.Text.{Text, lit, is_empty}
use peg.World.{M, ⊤, Env, Event, ◌>>=◌, ◌>>◌, pure, panics, call}
use peg.Config.{MachineOption}
use peg.Config.Options.{
  with_cpu, with_drive, with_memory, with_state_dir, with_image, with_iso, with_iso_checksum,
  vbox_engine, qemu_engine,
}
use peg.Machine.Download.{UrlParser}
use peg.Matcher.Gomega.{Gomega}
use peg.Suite.Options.{RunOption, ParseDuration, UnmarshalConfig}
use peg.Suite.Options as Suite
use peg.Suite.Generate.{Walk}
use peg.Suite.Run.{Ginkgo, run}

-- The values of the flags.
pub record Flags : Type 0 where
  pub label : Text
  pub iso : Text
  pub iso_checksum : Text
  pub cpu : Text
  pub memory : Text
  pub drive : Text
  pub state : Text
  pub loglevel : Text
  pub json_report : Text
  pub junit_report : Text
  pub timeout : Text
  pub image : Text
  pub slow_spec_threshold : Text
  pub workers : ℕ
  pub flake_attempts : ℕ
  pub fail_fast : Bool
  pub dry_run : Bool
  pub emit_spec_progress : Bool
  pub qemu : Bool
  pub verbose : Bool
  pub very_verbose : Bool
  pub succint : Bool
  pub always_emit_writer : Bool
  pub no_color : Bool
  pub vbox : Bool

-- `if b { opts = append(opts, o) }`
abbrev pub append_if {ℓ} : {A : Type ℓ} → Bool → A → List A → List A
append_if true o opts = opts ++ (o ∷ [])
append_if false o opts = opts

unfoldable pub machine_opts : Flags → List MachineOption
machine_opts c = append_if c.qemu qemu_engine (
    append_if c.vbox vbox_engine (
      with_cpu c.cpu
      ∷ with_drive c.drive
      ∷ with_memory c.memory
      ∷ with_state_dir c.state
      ∷ with_image c.image
      ∷ with_iso c.iso
      ∷ with_iso_checksum c.iso_checksum
      ∷ []))

abbrev pub is_given : Text → Bool
is_given [] = false
is_given (_ ∷ _) = true

unfoldable pub peg_opts : ParseDuration → Flags → List RunOption
peg_opts parse c = append_if (is_given c.timeout) (Suite.with_timeout parse c.timeout) (
    append_if (is_given c.slow_spec_threshold)
      (Suite.with_slow_spec_threshold parse c.slow_spec_threshold)
      (append_if c.emit_spec_progress Suite.emit_spec_progress (
        append_if c.no_color Suite.no_color (
          append_if c.always_emit_writer Suite.always_emit_ginkgo_writer (
            append_if c.succint Suite.succint (
              append_if c.very_verbose Suite.very_verbose (
                append_if c.verbose Suite.verbose (
                  append_if c.fail_fast Suite.fail_fast (
                    append_if c.dry_run Suite.dry_run (
                      Suite.with_label_filter c.label
                      ∷ Suite.with_machine_options (machine_opts c)
                      ∷ Suite.with_workers c.workers
                      ∷ Suite.with_flake_attempts c.flake_attempts
                      ∷ Suite.with_json_report c.json_report
                      ∷ Suite.with_junit_report c.junit_report
                      ∷ []))))))))))

module _ (E : Env) (U : UrlParser) (G : Gomega) (K : Ginkgo) (unmarshal : UnmarshalConfig)
    (walk : Walk) (parse : ParseDuration) (is_level : Text → Bool) where
  -- The file to run: the first argument, or `.peg.yaml` where that is missing and the file exists.
  unfoldable pub specfile : Text → M Text
  specfile f = do
    r ← call E (Event.stat (lit ".peg.yaml"))
    pure (elim r.error [ none ↦ if is_empty f then lit ".peg.yaml" else f | some e ↦ f ])

  -- `Action`, with the first argument; a log level that the logger does not know is a panic.
  unfoldable pub action : Flags → Text → M ⊤
  action c first = do
    if is_level c.loglevel then pure tt else panics
    f ← specfile first
    run E U G K unmarshal walk f (peg_opts parse c)
