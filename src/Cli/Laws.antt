-- ===== src/Cli/Laws.antt =====
-- What the flags do to the machine of a specfile and to the options of the runner.
use peg.Base.{◌≡◌, refl, ◌∙◌, Bool, true, false, none, List, [], ◌∷◌, ◌++◌, if◌then◌else◌}
use peg.Text.{Text, is_empty}
use peg.World.{ok, History}
use peg.Config.Laws.{apply-cons}
use peg.Config.{MachineConfig, MachineOption, apply, qemu, vbox}
use peg.Config.Options.{
  with_cpu, with_drive, with_memory, with_state_dir, with_image, with_iso, with_iso_checksum,
  vbox_engine, qemu_engine,
}
use peg.Cli.{Flags, append_if, machine_opts}

-- A flag that is given replaces the value of the specfile.
abbrev override : Text → Text → Text
override flag old = if is_empty flag then old else flag

abbrev drives_with : Text → List Text → List Text
drives_with [] drives = drives
drives_with (x ∷ v) drives = drives ++ ((x ∷ v) ∷ [])

-- The same with the flags for the engine apart.
abbrev overridden_with : Flags → Bool → Bool → MachineConfig → MachineConfig
overridden_with c q v mc = record mc {
  cpu = override c.cpu mc.cpu;
  drives = drives_with c.drive mc.drives;
  memory = override c.memory mc.memory;
  state_dir = override c.state mc.state_dir;
  image = override c.image mc.image;
  iso = override c.iso mc.iso;
  iso_checksum = override c.iso_checksum mc.iso_checksum;
  engine = if q then qemu else if v then vbox else mc.engine;
}

-- The machine with the flags put over it: texts are replaced, a drive is added behind the others,
-- and `--qemu` wins over `--vbox`.
abbrev pub overridden : Flags → MachineConfig → MachineConfig
overridden c mc = overridden_with c c.qemu c.vbox mc

with_cpu-eq :
    (v : Text) (mc : MachineConfig) (h : History)
    → with_cpu v mc h ≡ (ok (record mc { cpu = override v mc.cpu }, none), h)
unfolding with_cpu
with_cpu-eq [] mc h = refl
with_cpu-eq (x ∷ v) mc h = refl

with_memory-eq :
    (v : Text) (mc : MachineConfig) (h : History)
    → with_memory v mc h ≡ (ok (record mc { memory = override v mc.memory }, none), h)
unfolding with_memory
with_memory-eq [] mc h = refl
with_memory-eq (x ∷ v) mc h = refl

with_state_dir-eq :
    (v : Text) (mc : MachineConfig) (h : History)
    → with_state_dir v mc h ≡ (ok (record mc { state_dir = override v mc.state_dir }, none), h)
unfolding with_state_dir
with_state_dir-eq [] mc h = refl
with_state_dir-eq (x ∷ v) mc h = refl

with_image-eq :
    (v : Text) (mc : MachineConfig) (h : History)
    → with_image v mc h ≡ (ok (record mc { image = override v mc.image }, none), h)
unfolding with_image
with_image-eq [] mc h = refl
with_image-eq (x ∷ v) mc h = refl

with_iso-eq :
    (v : Text) (mc : MachineConfig) (h : History)
    → with_iso v mc h ≡ (ok (record mc { iso = override v mc.iso }, none), h)
unfolding with_iso
with_iso-eq [] mc h = refl
with_iso-eq (x ∷ v) mc h = refl

with_iso_checksum-eq :
    (v : Text) (mc : MachineConfig) (h : History)
    → with_iso_checksum v mc h
      ≡ (ok (record mc { iso_checksum = override v mc.iso_checksum }, none), h)
unfolding with_iso_checksum
with_iso_checksum-eq [] mc h = refl
with_iso_checksum-eq (x ∷ v) mc h = refl

with_drive-eq :
    (v : Text) (mc : MachineConfig) (h : History)
    → with_drive v mc h ≡ (ok (record mc { drives = drives_with v mc.drives }, none), h)
unfolding with_drive
with_drive-eq [] mc h = refl
with_drive-eq (x ∷ v) mc h = refl

apply-texts :
    (c : Flags) (rest : List MachineOption) (mc : MachineConfig) (h : History)
    → apply
        (with_cpu c.cpu
          ∷ with_drive c.drive
          ∷ with_memory c.memory
          ∷ with_state_dir c.state
          ∷ with_image c.image
          ∷ with_iso c.iso
          ∷ with_iso_checksum c.iso_checksum
          ∷ rest)
        mc
        h
      ≡ apply rest (overridden_with c false false mc) h
apply-texts c rest mc h =
    apply-cons _ _ _ h (with_cpu-eq c.cpu _ h)
    ∙ apply-cons _ _ _ h (with_drive-eq c.drive _ h)
    ∙ apply-cons _ _ _ h (with_memory-eq c.memory _ h)
    ∙ apply-cons _ _ _ h (with_state_dir-eq c.state _ h)
    ∙ apply-cons _ _ _ h (with_image-eq c.image _ h)
    ∙ apply-cons _ _ _ h (with_iso-eq c.iso _ h)
    ∙ apply-cons _ rest _ h (with_iso_checksum-eq c.iso_checksum _ h)

apply-engines :
    (c : Flags) (q v : Bool) (mc : MachineConfig) (h : History)
    → apply
        (append_if q qemu_engine (
          append_if v vbox_engine (
            with_cpu c.cpu
            ∷ with_drive c.drive
            ∷ with_memory c.memory
            ∷ with_state_dir c.state
            ∷ with_image c.image
            ∷ with_iso c.iso
            ∷ with_iso_checksum c.iso_checksum
            ∷ [])))
        mc
        h
      ≡ (ok (overridden_with c q v mc, none), h)
unfolding apply vbox_engine qemu_engine
apply-engines c true true mc h = apply-texts c (vbox_engine ∷ qemu_engine ∷ []) mc h
apply-engines c true false mc h = apply-texts c (qemu_engine ∷ []) mc h
apply-engines c false true mc h = apply-texts c (vbox_engine ∷ []) mc h
apply-engines c false false mc h = apply-texts c [] mc h

-- The options that the flags make never fail. Over any configuration, each flag of text that is
-- given replaces its field, but for the drive, which is appended to the drives; the engine is that
-- of the last switch that is given, QEMU behind VirtualBox.
pub apply-machine_opts :
    (c : Flags) (mc : MachineConfig) (h : History)
    → apply (machine_opts c) mc h ≡ (ok (overridden c mc, none), h)
unfolding machine_opts
apply-machine_opts c mc h = apply-engines c c.qemu c.vbox mc h
