-- ===== src/Machine/Qemu/Create.antt =====
-- The other methods of QEMU that do not talk to its monitor.
pub mod Laws
use peg.Base.{
  ℕ, ◌+◌, ◌≡◌, refl, Bool, true, false, ◌&&◌, Option, none, some, List, [], ◌∷◌, ◌++◌, map,
  if◌then◌else◌,
}
use peg.Text.{Text, lit, is_empty, decimal}
use peg.Text.FilePath.{join_path}
use peg.World.{
  M, ⊤, Env, Event, Error, wrap, wrapped, ◌>>=◌, ◌>>◌, pure, call, try, return_if, same,
}
use peg.Config.{MachineConfig, default_drive_size}
use peg.Machine.Kind.{Qemu, Process}
use peg.Machine.New.{map_error}
use peg.Machine.Qemu.Drives.{gen_drives}
use peg.Machine.Qemu.Arguments.{process_name, opts_or_panic}

-- A context is what the caller gave, or one made from it that is done when the monitor says so.
pub data Context : Type 0 where
  given : ℕ → Context
  with_cancel : Context → Context

abbrev pub is_nil : List Text → Bool
is_nil [] = true
is_nil (_ ∷ _) = false

unfoldable pub drive_sizes : MachineConfig → List Text
drive_sizes m =
    let sizes = map (λ s. s ++ lit "M") m.drive_sizes in
    if is_nil sizes then (default_drive_size ++ lit "M") ∷ [] else sizes

abbrev pub image_name : Text → ℕ → Text
image_name id i = id ++ (lit "-" ++ (decimal i ++ lit ".img"))

abbrev pub create_image : MachineConfig → Text → Text → Text
create_image m diskname size =
    lit "qemu-img create -f qcow2 " ++ (join_path m.state_dir diskname ++ (lit " " ++ size))

module _ (E : Env) where
  unfoldable pub create_disk : MachineConfig → Text → Text → M ⊤
  create_disk m diskname size = do
    try E (Event.mkdir_all m.state_dir)
    r ← call E (Event.exec (create_image m diskname size))
    return_if (wrapped (r.text ++ lit " : ")) r.error

  -- The loop over the drive sizes, from index `i`, with the drives so far.
  unfoldable pub create_disks : MachineConfig → ℕ → List Text → List Text → M (List Text)
  create_disks m i [] drives = pure drives
  create_disks m i (s ∷ sizes) drives = do
    map_error (wrapped (lit "creating disk with size " ++ (s ++ lit ": ")))
        (create_disk m (image_name m.id i) s)
    create_disks m (i + 1) sizes (drives ++ (join_path m.state_dir (image_name m.id i) ∷ []))

  unfoldable pub user_drives : MachineConfig → M (List Text)
  user_drives m =
      if m.auto_drive_setup && is_nil m.drives
      then (λ h. create_disks m 0 (drive_sizes m) m.drives h)
      else pure m.drives

  -- An error before the process runs comes with the given context and the machine unchanged. The
  -- error of `Run` comes with the new ones.
  unfoldable pub create : Qemu → Context → M (Qemu × Context × Option Error)
  create q ctx = do
    let m = q.machine_config
    drives ← user_drives m
    name ← map_error (wrapped (lit "failed to find QEMU binary: ")) (process_name E m)
    opts ← opts_or_panic m.ssh m
    let args = opts ++ gen_drives drives m
    call E (Event.start_monitor m.state_dir m.on_failure)
    r ← call E (Event.run_process name args m.state_dir)
    pure (
      record q { process = some (record { name = name; args = args; state_dir = m.state_dir }) },
      with_cancel ctx,
      r.error,
    )

  unfoldable pub stop : Qemu → M ⊤
  stop q = do try E (Event.stop_process q.machine_config.state_dir); pure tt

  unfoldable pub clean : Qemu → M ⊤
  clean q =
      if is_empty q.machine_config.state_dir
      then pure tt
      else (do try E (Event.remove_all q.machine_config.state_dir); pure tt)

  unfoldable pub alive : Qemu → M Bool
  alive q = do r ← call E (Event.process_alive q.machine_config.state_dir); pure r.flag
