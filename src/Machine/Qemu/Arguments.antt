-- ===== src/Machine/Qemu/Arguments.antt =====
-- The program and the arguments that `Create` starts QEMU with, but for the drives.
use peg.Base.{Option, none, some, List, [], ◌∷◌, ◌++◌, if◌then◌else◌}
use peg.Text.{Text, lit, is_empty, text_eq, split}
use peg.Text.FilePath.{join_path}
use peg.World.{M, Env, Event, ◌>>=◌, pure, panics, call, try_with, wrapped}
use peg.Config.{Ssh, MachineConfig}

abbrev common_paths : List Text
common_paths =
    lit "/home/linuxbrew/.linuxbrew/bin/"
    ∷ lit "/usr/local/bin/"
    ∷ lit "/usr/bin/"
    ∷ lit "/opt/homebrew/bin/"
    ∷ lit "/usr/local/homebrew/bin/"
    ∷ []

module _ (E : Env) where
  -- The loop over the common paths, with what follows it.
  unfoldable pub find_in : Text → List Text → M Text
  find_in binary [] = do
    r ←
        try_with E (wrapped (binary ++ lit " not found in common paths or PATH: "))
          (Event.look_path binary)
    pure r.text
  find_in binary (path ∷ paths) = do
    r ← call E (Event.stat (join_path path binary))
    elim r.error [ none ↦ pure (join_path path binary) | some e ↦ find_in binary paths ]

  unfoldable pub find_qemu_binary : Text → M Text
  unfolding find_in
  find_qemu_binary arch = find_in (lit "qemu-system-" ++ arch) common_paths

  unfoldable pub process_name : MachineConfig → M Text
  unfolding find_qemu_binary
  process_name m = if is_empty m.process then (λ h. find_qemu_binary m.arch h) else pure m.process

unfoldable pub monitor_sock_file : MachineConfig → Text
unfolding join_path
monitor_sock_file m = join_path m.state_dir (lit "qemu-monitor.sock")

abbrev display : MachineConfig → Text
display m = if is_empty m.display then lit "-nographic" else m.display

abbrev base_args : MachineConfig → List Text
base_args m =
    lit "-m"
    ∷ m.memory
    ∷ lit "-smp"
    ∷ (lit "cores=" ++ m.cpu)
    ∷ lit "-rtc"
    ∷ lit "base=utc,clock=rt"
    ∷ lit "-monitor"
    ∷ (lit "unix:" ++ (monitor_sock_file m ++ lit ",server,nowait"))
    ∷ lit "-device"
    ∷ lit "virtio-serial"
    ∷ []

-- `-nic` reads the port behind the SSH pointer.
abbrev network_args : Ssh → MachineConfig → List Text
network_args s m =
    if m.disable_default_networking
    then []
    else lit "-nic" ∷ (lit "user,hostfwd=tcp::" ++ (s.port ++ lit "-:22")) ∷ []

abbrev cpu_args : MachineConfig → List Text
cpu_args m =
    if is_empty m.cpu_type
    then (if text_eq m.arch (lit "aarch64") then lit "-cpu" ∷ lit "max" ∷ [] else [])
    else lit "-cpu" ∷ m.cpu_type ∷ []

abbrev machine_args : MachineConfig → List Text
machine_args m =
    if text_eq m.arch (lit "aarch64")
    then lit "-machine" ∷ lit "virt,accel=tcg,acpi=on,gic-version=2" ∷ []
    else []

abbrev boot_args : List Text
boot_args = lit "-boot" ∷ lit "order=dc,menu=on" ∷ []

-- The variable `opts`, appended to in the order of the code.
unfoldable pub qemu_opts : Ssh → MachineConfig → List Text
qemu_opts s m =
    base_args m
    ++ (network_args s m
        ++ (split (display m) b' ' ++ (cpu_args m ++ (m.args ++ (machine_args m ++ boot_args)))))

-- The same where `mc.SSH` may be nil: with the default networking the code reads its port.
unfoldable pub opts_or_panic : Option Ssh → MachineConfig → M (List Text)
opts_or_panic (some s) m = pure (qemu_opts s m)
opts_or_panic none m =
    if m.disable_default_networking
    then pure (qemu_opts (record { user = []; port = []; pass = [] }) m)
    else panics
