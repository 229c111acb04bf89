-- ===== src/Machine/Vbox.antt =====
-- pkg/machine/vbox.go.
pub mod Laws
use peg.Base.{
  ℕ, ◌+◌, ◌-◌, ◌≡◌, refl, Bool, true, false, ◌&&◌, Option, none, some, List, [], ◌∷◌, ◌++◌,
  if◌then◌else◌,
}
use peg.Text.{Text, lit, is_empty, decimal}
use peg.Text.FilePath.{join_path}
use peg.World.{
  M, ⊤, Env, Event, Reply, Error, wrap, ◌>>=◌, ◌>>◌, pure, panics, call, try, return_if, same,
}
use peg.Config.{Ssh, MachineConfig, default_drive_size}
use peg.Machine.Kind.{VBox}
use peg.Machine.Qemu.Create.{Context, is_nil}

abbrev quoted : Text → Text
quoted t = lit "\"" ++ (t ++ lit "\"")

abbrev pub createvm : MachineConfig → Text
createvm m =
    lit "VBoxManage createvm --name " ++ (m.id ++ (lit " --uuid " ++ (m.id ++ lit " --register")))

abbrev pub set_memory : MachineConfig → Text
set_memory m =
    lit "VBoxManage modifyvm "
    ++ (m.id ++ (lit " --memory " ++ (m.memory ++ (lit " --cpus " ++ m.cpu))))

abbrev pub set_network : MachineConfig → Text → Text
set_network m port =
    lit "VBoxManage modifyvm "
    ++ (m.id
        ++ (lit " --nic1 nat --boot1 disk --boot2 dvd --natpf1 \"guestssh,tcp,,"
            ++ (port ++ lit ",,22\"")))

abbrev pub storagectl : MachineConfig → Text
storagectl m =
    lit "VBoxManage storagectl "
    ++ (quoted m.id ++ lit " --name \"sata controller\" --add sata --portcount 2 --hostiocache off")

-- `storageattach` to the machine of a name, at a port.
abbrev pub storageattach : Text → ℕ → Text → Text → Text
storageattach name port kind medium =
    lit "VBoxManage storageattach "
    ++ (quoted name
        ++ (lit " --storagectl \"sata controller\" --port "
            ++ (decimal port
                ++ (lit " --device 0 --type " ++ (kind ++ (lit " --medium " ++ medium))))))

abbrev pub startvm : MachineConfig → Text
startvm m = lit "VBoxManage startvm " ++ (quoted m.id ++ lit " --type headless")

abbrev pub createmedium : MachineConfig → Text → Text → Text
createmedium m diskname size =
    lit "VBoxManage createmedium disk --filename "
    ++ (join_path m.state_dir diskname ++ (lit " --size " ++ size))

abbrev pub disk_name : Text → ℕ → Text
disk_name id i = id ++ (lit "-" ++ (decimal i ++ lit ".vdi"))

unfoldable pub drive_sizes : MachineConfig → List Text
drive_sizes m = if is_nil m.drive_sizes then default_drive_size ∷ [] else m.drive_sizes

abbrev pub controlvm : MachineConfig → Text → Text
controlvm m verb = lit "VBoxManage controlvm " ++ (quoted m.id ++ (lit " " ++ verb))

abbrev pub unregistervm : MachineConfig → Text
unregistervm m = lit "VBoxManage unregistervm --delete " ++ quoted m.id

module _ (E : Env) where
  -- A command of `Create`, and its error with the output behind it.
  unfoldable pub step : Text → Text → M ⊤
  step before cmd = do
    r ← call E (Event.exec cmd)
    return_if (λ e. wrap before e (lit " - " ++ r.text)) r.error

  unfoldable pub create_disk : MachineConfig → Text → Text → M ⊤
  create_disk m diskname size = do try E (Event.exec (createmedium m diskname size)); pure tt

  -- The loop over the drive sizes, from index `i`, with the drives so far.
  unfoldable pub create_disks : MachineConfig → ℕ → List Text → List Text → M (List Text)
  create_disks m i [] drives = pure drives
  create_disks m i (s ∷ sizes) drives = do
    create_disk m (disk_name m.id i) s
    create_disks m (i + 1) sizes (drives ++ (join_path m.state_dir (disk_name m.id i) ∷ []))

  unfoldable pub user_drives : MachineConfig → M (List Text)
  user_drives m =
      if m.auto_drive_setup && is_nil m.drives
      then (λ h. create_disks m 0 (drive_sizes m) m.drives h)
      else pure m.drives

  -- The loop over the drives: the counter `totalDrives` before it, and after it. A disk goes to the
  -- port after its index, on a machine that is named by the id with the index.
  unfoldable pub attach_drives : MachineConfig → ℕ → List Text → M ℕ
  attach_drives m total [] = pure total
  attach_drives m total (d ∷ drives) = do
    step (lit "while set VM: ")
        (storageattach (m.id ++ (lit "-" ++ decimal total)) (total + 1) (lit "hdd") d)
    attach_drives m (total + 1) drives

  -- The ISO and the data source, where they are given.
  unfoldable pub attach_cd : MachineConfig → ℕ → Text → M ℕ
  attach_cd m total [] = pure total
  attach_cd m total (c ∷ path) = do
    step (lit "while set VM: ") (storageattach m.id total (lit "dvddrive") (c ∷ path))
    pure (total + 1)

  -- `v.machineConfig.SSH.Port` panics if the pointer is nil.
  unfoldable pub forward_port : Option Ssh → MachineConfig → M ⊤
  forward_port none m = panics
  forward_port (some s) m = step (lit "while set VM: ") (set_network m s.port)

  unfoldable pub create : VBox → Context → M Context
  create v ctx = do
    let m = v.machine_config
    step (lit "while creating VM: ") (createvm m)
    step (lit "while set VM: ") (set_memory m)
    forward_port m.ssh m
    step (lit "while set VM: ") (storagectl m)
    drives ← user_drives m
    total ← attach_drives m 0 drives
    total' ← attach_cd m total m.iso
    attach_cd m total' m.data_source
    step (lit "while set VM: ") (startvm m)
    pure ctx

  unfoldable pub stop : VBox → M ⊤
  stop v = pure tt

  -- `errors.Wrap(err, out)`
  abbrev wrap_output : Text → M ⊤
  wrap_output cmd = do
    r ← call E (Event.exec cmd)
    return_if (λ e. wrap (r.text ++ lit ": ") e []) r.error

  unfoldable pub clean : VBox → M ⊤
  clean v = do
    let m = v.machine_config
    wrap_output (controlvm m (lit "poweroff"))
    wrap_output (unregistervm m)
    try E (Event.remove_all m.state_dir)
    pure tt

  unfoldable pub screenshot : VBox → M Text
  screenshot v = do
    f ← try E (Event.make_temp_file (lit "fff"))
    try E (Event.exec (controlvm v.machine_config (lit "screenshotpng " ++ quoted f.text)))
    pure f.text

  unfoldable pub detach_cd : VBox → M ⊤
  detach_cd v = do
    try E (
        Event.exec (
          lit "VBoxManage storageattach "
          ++ (quoted v.machine_config.id
              ++ lit " --storagectl \"sata controller\" --port 1 --device 0 --medium none")))
    pure tt

  unfoldable pub restart : VBox → M ⊤
  restart v = do try E (Event.exec (controlvm v.machine_config (lit "reset"))); pure tt
