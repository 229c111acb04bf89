-- ===== src/Config/Options.antt =====
-- The options that set one field each, and the two that read a specfile.
use peg.Base.{ℕ, true, false, Option, none, some, [], ◌∷◌, ◌++◌, if◌then◌else◌}
use peg.Text.{Text, lit, is_empty}
use peg.World.{Env, Error, Exit, ◌>>=◌, pure, panics, wrap, call}
use peg.World.{Event}
use peg.Config.{Ssh, MachineConfig, MachineOption, vbox, qemu}

-- The option's function: an empty argument leaves the configuration as it is.
abbrev unless_empty : Text → (MachineConfig → MachineConfig) → MachineOption
unless_empty s f mc = pure (if is_empty s then mc else f mc, none)

-- A write through `mc.SSH`, which panics if that is nil.
abbrev write_ssh : Option Ssh → (Ssh → Ssh) → MachineOption
write_ssh none f mc = panics
write_ssh (some s) f mc = pure (record mc { ssh = some (f s) }, none)

unfoldable pub with_ssh_pass : Text → MachineOption
with_ssh_pass sshpass mc =
    if is_empty sshpass
    then pure (mc, none)
    else write_ssh mc.ssh (λ s. record s { pass = sshpass }) mc

unfoldable pub on_failure : Option ℕ → MachineOption
on_failure f mc = pure (record mc { on_failure = f }, none)

unfoldable pub with_memory : Text → MachineOption
with_memory mem = unless_empty mem λ mc. record mc { memory = mem }

unfoldable pub with_display : Text → MachineOption
with_display display = unless_empty display λ mc. record mc { display = display }

unfoldable pub with_data_source : Text → MachineOption
with_data_source ds = unless_empty ds λ mc. record mc { data_source = ds }

unfoldable pub with_cpu_type : Text → MachineOption
with_cpu_type cpu = unless_empty cpu λ mc. record mc { cpu_type = cpu }

unfoldable pub with_cpu : Text → MachineOption
with_cpu cpu = unless_empty cpu λ mc. record mc { cpu = cpu }

unfoldable pub with_iso_checksum : Text → MachineOption
with_iso_checksum iso = unless_empty iso λ mc. record mc { iso_checksum = iso }

unfoldable pub with_image : Text → MachineOption
with_image img = unless_empty img λ mc. record mc { image = img }

unfoldable pub with_iso : Text → MachineOption
with_iso iso = unless_empty iso λ mc. record mc { iso = iso }

unfoldable pub with_drive : Text → MachineOption
with_drive drive = unless_empty drive λ mc. record mc { drives = mc.drives ++ (drive ∷ []) }

unfoldable pub with_drive_size : Text → MachineOption
with_drive_size drivesize =
    unless_empty drivesize λ mc. record mc { drive_sizes = mc.drive_sizes ++ (drivesize ∷ []) }

unfoldable pub with_process_name : Text → MachineOption
with_process_name proc = unless_empty proc λ mc. record mc { process = proc }

unfoldable pub with_id : Text → MachineOption
with_id id = unless_empty id λ mc. record mc { id = id }

unfoldable pub with_ssh_port : Text → MachineOption
with_ssh_port sshport mc =
    if is_empty sshport
    then pure (mc, none)
    else write_ssh mc.ssh (λ s. record s { port = sshport }) mc

unfoldable pub with_ssh_user : Text → MachineOption
with_ssh_user sshuser mc =
    if is_empty sshuser
    then pure (mc, none)
    else write_ssh mc.ssh (λ s. record s { user = sshuser }) mc

unfoldable pub with_state_dir : Text → MachineOption
with_state_dir dir = unless_empty dir λ mc. record mc { state_dir = dir }

unfoldable pub with_arch : Text → MachineOption
with_arch arch = unless_empty arch λ mc. record mc { arch = arch }

unfoldable pub vbox_engine : MachineOption
vbox_engine mc = pure (record mc { engine = vbox }, none)

unfoldable pub qemu_engine : MachineOption
qemu_engine mc = pure (record mc { engine = qemu }, none)

unfoldable pub enable_auto_drive_setup : MachineOption
enable_auto_drive_setup mc = pure (record mc { auto_drive_setup = true }, none)

unfoldable pub disable_auto_drive_setup : MachineOption
disable_auto_drive_setup mc = pure (record mc { auto_drive_setup = false }, none)

unfoldable pub disable_default_networking : MachineOption
disable_default_networking mc = pure (record mc { disable_default_networking = true }, none)

unfoldable pub enable_default_networking : MachineOption
enable_default_networking mc = pure (record mc { disable_default_networking = false }, none)

-- `yaml.Unmarshal` into a machine configuration: what stood in it before goes in too. It may change
-- the target also where it returns an error, and it may panic.
abbrev pub UnmarshalMachine : Type 0
UnmarshalMachine = Text → MachineConfig → Exit (MachineConfig × Option Error)

-- Wraps an error that is not nil.
abbrev wrap_error : Text → MachineConfig × Option Error → MachineConfig × Option Error
wrap_error before (mc, none) = (mc, none)
wrap_error before (mc, some e) = (mc, some (wrap before e []))

module _ (E : Env) (unmarshal : UnmarshalMachine) where
  -- `types.FromFile`
  unfoldable pub from_file : Text → MachineOption
  from_file path mc = do
    r ← call E (Event.read_file path)
    elim r.error [
      | some e ↦ pure (mc, some (wrap (lit "failed reading " ++ (path ++ lit ": ")) e []))
      | none ↦ do
        result ← λ h. (unmarshal r.text mc, h)
        pure (wrap_error (lit "failed unmarshalling " ++ (path ++ lit ": ")) result)
    ]
