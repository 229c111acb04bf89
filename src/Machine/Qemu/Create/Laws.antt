-- ===== src/Machine/Qemu/Create/Laws.antt =====
-- What `Create` leaves behind: the disks that it makes, and the one process that it runs.
use peg.Base.{
  ℕ, ◌+◌, ◌≡◌, refl, sym, true, ◌&&◌, Option, none, some, List, [], ◌∷◌, ◌++◌, append-nil,
  append_assoc, arith, if◌then◌else◌,
}
use peg.Text.{Text, lit}
use peg.Text.FilePath.{join_path}
use peg.World.{Env, Event, Error, ok, History, ◌▷◌, wrapped}
use peg.World.Ensures.{Returns, ReturnsAt}
use peg.Config.{Ssh, MachineConfig}
use peg.Machine.Kind.{Qemu}
use peg.Machine.New.{map_error}
use peg.Machine.Qemu.Drives.{gen_drives}
use peg.Machine.Qemu.Arguments.{opts_or_panic, qemu_opts}
use peg.Machine.Qemu.Create.{
  Context, with_cancel, is_nil, drive_sizes, image_name, create_image, create_disk, create_disks,
  user_drives, create,
}

-- The images for the sizes, numbered from `i`.
abbrev pub image_paths : MachineConfig → ℕ → List Text → List Text
image_paths m i [] = []
image_paths m i (s ∷ sizes) =
    join_path m.state_dir (image_name m.id i) ∷ image_paths m (i + 1) sizes

-- The calls that make them, after the history `h`.
abbrev pub image_calls : MachineConfig → ℕ → List Text → History → History
image_calls m i [] h = h
image_calls m i (s ∷ sizes) h =
    image_calls m (i + 1) sizes
      (h ▷ Event.mkdir_all m.state_dir ▷ Event.exec (create_image m (image_name m.id i) s))

-- The user's drives, or else an image for each size.
abbrev pub expected_drives : MachineConfig → List Text
expected_drives m =
    if m.auto_drive_setup && is_nil m.drives then image_paths m 0 (drive_sizes m) else m.drives

is_nil_sound : (l : List Text) → is_nil l ≡ true → l ≡ []
is_nil_sound [] h = refl
is_nil_sound (x ∷ l) h = cc

module _ (E : Env) where
  create_disk-calls :
      (m : MachineConfig) (diskname size : Text) (f : Error → Error) (h : History)
      → ReturnsAt
          (λ _ t. t ≡ (h ▷ Event.mkdir_all m.state_dir ▷ Event.exec (create_image m diskname size)))
          (map_error f (create_disk E m diskname size) h)
  unfolding create_disk
  create_disk-calls m diskname size f h = ground arith

  create_disks-calls :
      (m : MachineConfig) (i : ℕ) (sizes drives : List Text) (h : History)
      → ReturnsAt
          (λ ds t. (ds ≡ drives ++ image_paths m i sizes) × (t ≡ image_calls m i sizes h))
          (create_disks E m i sizes drives h)
  unfolding create_disks
  create_disks-calls m i [] drives h = (sym (append-nil drives), refl)
  create_disks-calls m i (s ∷ sizes) drives h =
      let path = join_path m.state_dir (image_name m.id i) in
      ground (
        arith,
        create_disk-calls m (image_name m.id i) s
            (wrapped (lit "creating disk with size " ++ (s ++ lit ": "))) h,
        create_disks-calls m (i + 1) sizes (drives ++ (path ∷ []))
            (h ▷ Event.mkdir_all m.state_dir ▷ Event.exec (create_image m (image_name m.id i) s)),
        append_assoc drives (path ∷ []) (image_paths m (i + 1) sizes),
      )

  user_drives-eq :
      (m : MachineConfig) (h : History) → Returns (λ ds. ds ≡ expected_drives m) (user_drives E m h)
  unfolding user_drives
  user_drives-eq m h =
      ground (arith, is_nil_sound m.drives, create_disks-calls m 0 (drive_sizes m) m.drives h)

  opts_or_panic-eq :
      (m : MachineConfig) (s : Ssh) (h : History)
      → m.ssh ≡ some s
      → opts_or_panic m.ssh m h ≡ (ok (qemu_opts s m), h)
  unfolding opts_or_panic
  opts_or_panic-eq m s h e = rw e refl

  -- The last two calls were those that start the monitor and the process of the machine, which the
  -- machine keeps. Its arguments are the options and the expected drives; the error is that of the
  -- call.
  abbrev pub IsLaunched : Qemu → Context → Ssh → Qemu × Context × Option Error → History → Type 0
  IsLaunched q ctx s (q', ctx', e) (run ∷ start ∷ h) = elim q'.process [
    | none ↦ ⊥
    | some p ↦
        let m = q.machine_config in
        (q'.machine_config ≡ m)
        × (ctx' ≡ with_cancel ctx)
        × (start ≡ Event.start_monitor m.state_dir m.on_failure)
        × (run ≡ Event.run_process p.name p.args m.state_dir)
        × (e ≡ (E (h ▷ start) run).error)
        × (p.args ≡ qemu_opts s m ++ gen_drives (expected_drives m) m)
        × (p.state_dir ≡ m.state_dir)
  ]
  IsLaunched q ctx s r _ = ⊥

  -- There is an SSH value. If `Create` returns, with or without an error of the process, its last two
  -- calls started the monitor and ran the process that the machine keeps; the arguments are the
  -- options and then those of the drives, which are the user's or else one image for each size.
  pub create-IsLaunched :
      (q : Qemu) (ctx : Context) (s : Ssh) (h : History)
      → q.machine_config.ssh ≡ some s
      → ReturnsAt (IsLaunched q ctx s) (create E q ctx h)
  unfolding create
  create-IsLaunched q ctx s h e = grind (arith, user_drives-eq, opts_or_panic-eq)
