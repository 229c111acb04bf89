-- ===== src/Machine/Vbox/Laws.antt =====
-- `Create` against a plan: the list of its commands, which depends on the configuration alone.
use native.Mathlib.Nat.{zero-add, add-zero}
use peg.Base.{
  ℕ, ◌+◌, ◌≡◌, refl, ap, ◌∙◌, Bool, ◌&&◌, none, some, List, [], ◌∷◌, ◌++◌, append-nil, append_assoc,
  arith, if◌then◌else◌, length, length-append, Bool-cases, inl, inr,
}
use peg.Text.{Text, lit, decimal}
use peg.Text.FilePath.{join_path}
use peg.World.{M, ⊤, Env, Event, History, ok, err, wrap, ◌▷◌, ◌>>=◌, ◌>>◌, pure, try}
use peg.Config.{Ssh, MachineConfig}
use peg.Machine.Kind.{VBox}
use peg.Machine.Qemu.Create.{Context, is_nil}
use peg.Machine.Vbox.{
  createvm, set_memory, set_network, storagectl, storageattach, startvm, createmedium, disk_name,
  drive_sizes, step, create_disk, create_disks, user_drives, attach_drives, attach_cd, forward_port,
  create,
}

-- A command of the plan: one whose error gets a text and the output, or one whose error is returned
-- as it is.
pub data Planned : Type 0 where
  reported : Text → Text → Planned
  plain : Text → Planned

abbrev pub command : Planned → Text
command (reported before cmd) = cmd
command (plain cmd) = cmd

abbrev while_set : Text → Planned
while_set cmd = reported (lit "while set VM: ") cmd

abbrev pub disk_plan : MachineConfig → ℕ → List Text → List Planned
disk_plan m i [] = []
disk_plan m i (s ∷ sizes) = plain (createmedium m (disk_name m.id i) s) ∷ disk_plan m (i + 1) sizes

abbrev pub disk_paths : MachineConfig → ℕ → List Text → List Text
disk_paths m i [] = []
disk_paths m i (s ∷ sizes) = join_path m.state_dir (disk_name m.id i) ∷ disk_paths m (i + 1) sizes

abbrev pub attach_plan : MachineConfig → ℕ → List Text → List Planned
attach_plan m i [] = []
attach_plan m i (d ∷ drives) =
    while_set (storageattach (m.id ++ (lit "-" ++ decimal i)) (i + 1) (lit "hdd") d)
    ∷ attach_plan m (i + 1) drives

abbrev pub cd_plan : MachineConfig → ℕ → Text → List Planned
cd_plan m i [] = []
cd_plan m i (c ∷ path) = while_set (storageattach m.id i (lit "dvddrive") (c ∷ path)) ∷ []

abbrev pub cd_count : Text → ℕ
cd_count [] = 0
cd_count (c ∷ path) = 1

abbrev pub wants_disks : MachineConfig → Bool
wants_disks m = m.auto_drive_setup && is_nil m.drives

abbrev pub planned_drives : MachineConfig → List Text
planned_drives m = if wants_disks m then m.drives ++ disk_paths m 0 (drive_sizes m) else m.drives

-- The commands for the given drives and ISO.
abbrev pub storage_plan_of : MachineConfig → List Text → Text → List Planned
storage_plan_of m drives iso =
    let n = length drives in
    attach_plan m 0 drives
    ++ (cd_plan m n iso
        ++ (cd_plan m (n + cd_count iso) m.data_source ++ (while_set (startvm m) ∷ [])))

abbrev pub storage_plan : MachineConfig → List Planned
storage_plan m = storage_plan_of m (planned_drives m) m.iso

-- The commands up to the loop over the drives.
abbrev pub first_plan : Ssh → MachineConfig → List Planned
first_plan s m =
    reported (lit "while creating VM: ") (createvm m)
    ∷ while_set (set_memory m)
    ∷ while_set (set_network m s.port)
    ∷ while_set (storagectl m)
    ∷ (if wants_disks m then disk_plan m 0 (drive_sizes m) else [])

-- All commands of `Create`, in order.
abbrev pub create_plan : Ssh → MachineConfig → List Planned
create_plan s m = first_plan s m ++ storage_plan m

module _ (E : Env) where
  -- The command is run once; if it fails, its error is returned, where it is reported with the text
  -- before it and the output behind it.
  abbrev pub run_planned : Planned → M ⊤
  run_planned (reported before cmd) h = elim (E h (Event.exec cmd)).error [
    | none ↦ (ok tt, h ▷ Event.exec cmd)
    | some e ↦ (err (wrap before e (lit " - " ++ (E h (Event.exec cmd)).text)), h ▷ Event.exec cmd)
  ]
  run_planned (plain cmd) h = elim (E h (Event.exec cmd)).error [
    | none ↦ (ok tt, h ▷ Event.exec cmd)
    | some e ↦ (err e, h ▷ Event.exec cmd)
  ]

  -- Runs the commands up to the first that fails.
  abbrev pub run_plan : List Planned → M ⊤
  run_plan [] = pure tt
  run_plan (p ∷ plan) = run_planned p >> run_plan plan

  -- The same by the helper of the code.
  abbrev step_of : Planned → M ⊤
  step_of (reported before cmd) = step E before cmd
  step_of (plain cmd) = do try E (Event.exec cmd); pure tt

  abbrev run_steps : List Planned → M ⊤
  run_steps [] = pure tt
  run_steps (p ∷ plan) = step_of p >> run_steps plan

  step_of-eq : (p : Planned) (h : History) → step_of p h ≡ run_planned p h
  unfolding step
  step_of-eq (reported before cmd) h = ground arith
  step_of-eq (plain cmd) h = ground arith

  run_steps-eq : (plan : List Planned) (h : History) → run_steps plan h ≡ run_plan plan h
  run_steps-eq [] h = refl
  run_steps-eq (p ∷ plan) h = ground (arith, step_of-eq p h, run_steps-eq plan (run_planned p h).1)

  run_steps-append :
      {A : Type 0} (xs ys : List Planned) (k : M A) (h : History)
      → (run_steps (xs ++ ys) >> k) h ≡ (run_steps xs >> (run_steps ys >> k)) h
  run_steps-append [] ys k h = refl
  run_steps-append (reported before cmd ∷ xs) ys k h =
      ground (arith, run_steps-append xs ys k (step E before cmd h).1)
  run_steps-append (plain cmd ∷ xs) ys k h =
      ground (arith, run_steps-append xs ys k (h ▷ Event.exec cmd))

  create_disks-eq :
      (m : MachineConfig) (i : ℕ) (sizes drives : List Text) (h : History)
      → create_disks E m i sizes drives h
        ≡ (run_steps (disk_plan m i sizes) >> pure (drives ++ disk_paths m i sizes)) h
  unfolding create_disks create_disk
  create_disks-eq m i [] drives h = rw append-nil refl
  create_disks-eq m i (s ∷ sizes) drives h =
      let path = join_path m.state_dir (disk_name m.id i) in
      let cmd = createmedium m (disk_name m.id i) s in
      ground (
        arith,
        create_disks-eq m (i + 1) sizes (drives ++ (path ∷ [])) (h ▷ Event.exec cmd),
        append_assoc drives (path ∷ []) (disk_paths m (i + 1) sizes),
      )

  attach_drives-eq :
      (m : MachineConfig) (i : ℕ) (drives : List Text) (h : History)
      → attach_drives E m i drives h
        ≡ (run_steps (attach_plan m i drives) >> pure (i + length drives)) h
  unfolding attach_drives
  attach_drives-eq m i [] h = ground arith
  attach_drives-eq m i (d ∷ drives) h =
      let cmd = storageattach (m.id ++ (lit "-" ++ decimal i)) (i + 1) (lit "hdd") d in
      ground (arith, attach_drives-eq m (i + 1) drives (step E (lit "while set VM: ") cmd h).1)

  attach_cd-eq :
      (m : MachineConfig) (i : ℕ) (path : Text) (h : History)
      → attach_cd E m i path h ≡ (run_steps (cd_plan m i path) >> pure (i + cd_count path)) h
  unfolding attach_cd
  attach_cd-eq m i [] h = ground arith
  attach_cd-eq m i (c ∷ path) h = ground arith

  -- The part of `Create` behind the loop that makes the disks.
  abbrev storage : MachineConfig → Context → List Text → M Context
  storage m ctx drives = do
    total ← attach_drives E m 0 drives
    total' ← attach_cd E m total m.iso
    attach_cd E m total' m.data_source
    step E (lit "while set VM: ") (startvm m)
    pure ctx

  -- The commands for the storage, once the drives are known.
  storage-eq :
      (m : MachineConfig) (drives : List Text) (ctx : Context) (h : History)
      → storage m ctx drives h
        ≡ (run_steps (
                attach_plan m 0 drives
                ++ (cd_plan m (length drives) m.iso
                    ++ (cd_plan m (length drives + cd_count m.iso) m.data_source
                        ++ (while_set (startvm m) ∷ []))))
              >> pure ctx)
            h
  storage-eq m drives ctx h =
      let n = length drives in
      let a = attach_plan m 0 drives in
      let b = cd_plan m n m.iso in
      let c = cd_plan m (n + cd_count m.iso) m.data_source in
      let d = while_set (startvm m) ∷ [] in
      let h₁ = (run_steps a h).1 in
      let h₂ = (run_steps b h₁).1 in
      ground (
        arith,
        attach_drives-eq m 0 drives h,
        zero-add n,
        attach_cd-eq m n m.iso h₁,
        attach_cd-eq m (n + cd_count m.iso) m.data_source h₂,
        run_steps-append a (b ++ (c ++ d)) (pure ctx) h,
        run_steps-append b (c ++ d) (pure ctx) h₁,
        run_steps-append c d (pure ctx) h₂,
      )

  drives-eq :
      (m : MachineConfig) (ctx : Context) (h : History)
      → (user_drives E m >>= storage m ctx) h
        ≡ (run_steps
                ((if wants_disks m then disk_plan m 0 (drive_sizes m) else []) ++ storage_plan m)
              >> pure ctx)
            h
  unfolding user_drives
  drives-eq m ctx h = elim (Bool-cases (wants_disks m)) [
    | inl yes_disks ↦
        let disks = m.drives ++ disk_paths m 0 (drive_sizes m) in
        let n = length disks in
        let plan =
          attach_plan m 0 disks
          ++ (cd_plan m n m.iso
              ++ (cd_plan m (n + cd_count m.iso) m.data_source ++ (while_set (startvm m) ∷ []))) in
        rw yes_disks (
          ground (
            arith,
            create_disks-eq m 0 (drive_sizes m) m.drives h,
            run_steps-append (disk_plan m 0 (drive_sizes m)) plan (pure ctx) h,
            storage-eq m disks ctx (run_steps (disk_plan m 0 (drive_sizes m)) h).1,
          ))
    | inr no_disks ↦ rw no_disks (storage-eq m m.drives ctx h)
  ]

  forward_port-eq :
      (m : MachineConfig) (s : Ssh) (h : History)
      → m.ssh ≡ some s
      → forward_port E m.ssh m h ≡ step E (lit "while set VM: ") (set_network m s.port) h
  unfolding forward_port
  forward_port-eq m s h e = rw e refl

  -- Given a value behind the SSH pointer, `Create` runs the plan: the same commands in the same
  -- order up to the first that fails, with that command's error, and it returns its context.
  pub create-eq-run_plan :
      (v : VBox) (ctx : Context) (s : Ssh) (h : History)
      → v.machine_config.ssh ≡ some s
      → create E v ctx h ≡ (run_plan (create_plan s v.machine_config) >> pure ctx) h
  unfolding create
  create-eq-run_plan v ctx s h e =
      let m = v.machine_config in
      let h₁ = (step E (lit "while creating VM: ") (createvm m) h).1 in
      let h₂ = (step E (lit "while set VM: ") (set_memory m) h₁).1 in
      let h₃ = (step E (lit "while set VM: ") (set_network m s.port) h₂).1 in
      let h₄ = (step E (lit "while set VM: ") (storagectl m) h₃).1 in
      ground (arith, forward_port-eq m s h₂ e, drives-eq m ctx h₄, run_steps-eq (create_plan s m) h)

attach_plan-append :
    (m : MachineConfig) (i : ℕ) (xs ys : List Text)
    → attach_plan m i (xs ++ ys) ≡ attach_plan m i xs ++ attach_plan m (i + length xs) ys
attach_plan-append m i [] ys = rw add-zero refl
attach_plan-append m i (x ∷ xs) ys = ground (arith, attach_plan-append m (i + 1) xs ys)

-- The commands behind those for `ds`, with one more disk `d` and an ISO.
abbrev pub clashing_plan : MachineConfig → ℕ → Text → Text → List Planned
clashing_plan m n d iso =
    while_set (storageattach (m.id ++ (lit "-" ++ decimal n)) (n + 1) (lit "hdd") d)
    ∷ while_set (storageattach m.id (n + 1) (lit "dvddrive") iso)
    ∷ (cd_plan m (n + 1 + 1) m.data_source ++ (while_set (startvm m) ∷ []))

storage_plan_of-clash :
    (m : MachineConfig) (ds : List Text) (d : Text) (c : ℕ) (path : Text)
    → storage_plan_of m (ds ++ (d ∷ [])) (c ∷ path)
      ≡ attach_plan m 0 ds ++ clashing_plan m (length ds) d (c ∷ path)
storage_plan_of-clash m ds d c path =
    rw (attach_plan-append m 0 ds (d ∷ []), length-append ds (d ∷ []), zero-add, append_assoc) refl

-- There is an SSH value and an ISO, and `d` is the last of the drives, the one that `Create` makes
-- by default included: then the command that attaches `d` and the one that attaches the ISO follow
-- one another, and both name the port that is the number of the drives.
pub create-port_clash :
    (E : Env) (v : VBox) (ctx : Context) (s : Ssh) (h : History) (ds : List Text) (d : Text) (c : ℕ)
    (path : Text)
    → v.machine_config.ssh ≡ some s
    → planned_drives v.machine_config ≡ ds ++ (d ∷ [])
    → v.machine_config.iso ≡ c ∷ path
    → let m = v.machine_config in
      create E v ctx h
      ≡ (run_plan E
              (first_plan s m ++ (attach_plan m 0 ds ++ clashing_plan m (length ds) d (c ∷ path)))
            >> pure ctx)
          h
create-port_clash E v ctx s h ds d c path e p f =
    let m = v.machine_config in
    create-eq-run_plan E v ctx s h e
    ∙ ap (λ (storage : List Planned). (run_plan E (first_plan s m ++ storage) >> pure ctx) h)
        (ap (λ (drives : List Text). storage_plan_of m drives m.iso) p
          ∙ (ap (λ (iso : Text). storage_plan_of m (ds ++ (d ∷ [])) iso) f
              ∙ storage_plan_of-clash m ds d c path))
