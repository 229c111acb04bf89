-- ===== src/Machine/Qemu/Drives.antt =====
-- The drives of a QEMU machine: the closure `genDrives` of `Create`, which appends to a list, and
-- keeps a counter of identifiers and a flag for the SCSI controller. Its specification is a plain
-- list of parts.
use peg.Base.{
  ℕ, ◌+◌, ◌≡◌, refl, sym, ap, ◌∙◌, Bool, true, false, List, [], ◌∷◌, ◌++◌, append-nil, append_assoc,
  arith, if◌then◌else◌, length,
}
use native.Mathlib.Nat.{zero-add}
use peg.Text.{Text, lit, is_empty, decimal}
use peg.Text.Laws.{decimal-injective}
use peg.Config.{MachineConfig}

-- The variables that the closure assigns.
pub record DriveState : Type 0 where
  pub all_drives : List Text
  pub scsi_added : Bool
  pub id : ℕ

abbrev pub drive_id : ℕ → Text
drive_id id = lit "drv" ++ decimal id

abbrev disk_args : ℕ → ℕ → Text → List Text
disk_args id i d =
    lit "-drive"
    ∷ (lit "if=none,id=" ++ (drive_id id ++ (lit ",file=" ++ d)))
    ∷ lit "-device"
    ∷ (lit "virtio-blk-pci,drive=" ++ (drive_id id ++ (lit ",bootindex=" ++ decimal (i + 1))))
    ∷ []

abbrev cdrom_args : ℕ → Text → Text → List Text
cdrom_args id path bootindex =
    lit "-drive"
    ∷ (lit "if=none,id=" ++ (drive_id id ++ (lit ",media=cdrom,file=" ++ path)))
    ∷ lit "-device"
    ∷ (lit "scsi-cd,drive=" ++ (drive_id id ++ (lit ",bus=scsi0.0,bootindex=" ++ bootindex)))
    ∷ []

abbrev scsi_args : List Text
scsi_args = lit "-device" ∷ lit "virtio-scsi-pci,id=scsi0" ∷ []

-- The loop over the user's drives, from index `i`.
unfoldable pub add_user_drives : ℕ → List Text → DriveState → DriveState
add_user_drives i [] s = s
add_user_drives i (d ∷ drives) s =
    add_user_drives (i + 1) drives
      (record s { all_drives = s.all_drives ++ disk_args s.id i d; id = s.id + 1 })

unfoldable pub add_scsi_if_needed : DriveState → DriveState
add_scsi_if_needed s =
    if s.scsi_added
    then s
    else record s { all_drives = s.all_drives ++ scsi_args; scsi_added = true }

-- The two blocks for a CD-ROM differ in the path and in the boot index.
unfoldable pub add_cdrom : Text → Text → DriveState → DriveState
add_cdrom path bootindex s =
    if is_empty path
    then s
    else (let t = add_scsi_if_needed s in
        record t { all_drives = t.all_drives ++ cdrom_args t.id path bootindex; id = t.id + 1 })

abbrev no_drives : DriveState
no_drives = record { all_drives = []; scsi_added = false; id = 0 }

unfoldable pub gen_drives : List Text → MachineConfig → List Text
gen_drives user_drives m =
    (add_cdrom m.data_source (lit "60")
      (add_cdrom m.iso (lit "50") (add_user_drives 0 user_drives no_drives))).all_drives

-- What the drives of a machine are: disks, one controller, and CD-ROMs on it.
pub data Device : Type 0 where
  disk : ℕ → Text → Device
  controller : Device
  cdrom : ℕ → ℕ → Text → Device

-- The arguments of QEMU for a device: a disk boots by its number from one on, a CD-ROM as it says.
abbrev pub rendered : Device → List Text
rendered (disk n path) =
    lit "-drive"
    ∷ (lit "if=none,id=drv" ++ (decimal n ++ (lit ",file=" ++ path)))
    ∷ lit "-device"
    ∷ (lit "virtio-blk-pci,drive=drv" ++ (decimal n ++ (lit ",bootindex=" ++ decimal (n + 1))))
    ∷ []
rendered controller = lit "-device" ∷ lit "virtio-scsi-pci,id=scsi0" ∷ []
rendered (cdrom n boot path) =
    lit "-drive"
    ∷ (lit "if=none,id=drv" ++ (decimal n ++ (lit ",media=cdrom,file=" ++ path)))
    ∷ lit "-device"
    ∷ (lit "scsi-cd,drive=drv" ++ (decimal n ++ (lit ",bus=scsi0.0,bootindex=" ++ decimal boot)))
    ∷ []

abbrev pub rendered_all : List Device → List Text
rendered_all [] = []
rendered_all (d ∷ devices) = rendered d ++ rendered_all devices

-- The disks, numbered from `i`.
abbrev pub disks_from : ℕ → List Text → List Device
disks_from i [] = []
disks_from i (d ∷ drives) = disk i d ∷ disks_from (i + 1) drives

-- The CD-ROMs behind `n` disks: one controller if there is any, then the ISO, then the data source.
abbrev pub cdroms : ℕ → Text → Text → List Device
cdroms n [] [] = []
cdroms n (c ∷ iso) [] = controller ∷ cdrom n 50 (c ∷ iso) ∷ []
cdroms n [] (c ∷ source) = controller ∷ cdrom n 60 (c ∷ source) ∷ []
cdroms n (c ∷ iso) (d ∷ source) =
    controller ∷ cdrom n 50 (c ∷ iso) ∷ cdrom (n + 1) 60 (d ∷ source) ∷ []

disk_args-eq : (i : ℕ) (d : Text) → disk_args i i d ≡ rendered (disk i d)
unfolding lit
disk_args-eq i d = refl

add_user_drives-eq :
    (drives : List Text) (i : ℕ) (l : List Text)
    → add_user_drives i drives (record { all_drives = l; scsi_added = false; id = i }) ≡ record {
      all_drives = l ++ rendered_all (disks_from i drives);
      scsi_added = false;
      id = i + length drives;
    }
unfolding add_user_drives
add_user_drives-eq [] i l = ground (arith, append-nil l)
add_user_drives-eq (d ∷ drives) i l = ground (
  arith,
  disk_args-eq i d,
  add_user_drives-eq drives (i + 1) (l ++ disk_args i i d),
  append_assoc l (disk_args i i d) (rendered_all (disks_from (i + 1) drives)),
)

add_cdrom-eq :
    (n : ℕ) (iso source : Text) (all : List Text)
    → (add_cdrom source (lit "60") (
        add_cdrom iso
          (lit "50")
          (record { all_drives = all; scsi_added = false; id = n }))).all_drives
      ≡ all ++ rendered_all (cdroms n iso source)
unfolding add_cdrom add_scsi_if_needed lit decimal
add_cdrom-eq n [] [] all = sym (append-nil all)
add_cdrom-eq n (c ∷ iso) [] all = append_assoc all _ _
add_cdrom-eq n [] (c ∷ source) all = append_assoc all _ _
add_cdrom-eq n (c ∷ iso) (d ∷ source) all = simp append_assoc

-- `genDrives` gives the arguments of these devices: the disks in order, disk `i` with identifier
-- `drv<i>` and boot index `i + 1`; then, if there is an ISO or a data source, one SCSI controller
-- and a CD-ROM for each, the ISO at boot index 50 and the data source at 60, with the identifiers
-- that follow those of the disks.
pub gen_drives-eq :
    (drives : List Text) (m : MachineConfig)
    → gen_drives drives m
      ≡ rendered_all (disks_from 0 drives)
        ++ rendered_all (cdroms (length drives) m.iso m.data_source)
unfolding gen_drives
gen_drives-eq drives m =
    ap
      (λ (s : DriveState).
        (add_cdrom m.data_source (lit "60") (add_cdrom m.iso (lit "50") s)).all_drives)
      (add_user_drives-eq drives 0 []
        ∙ ap
            (λ (n : ℕ). record {
              all_drives = rendered_all (disks_from 0 drives);
              scsi_added = false;
              id = n;
            })
            (zero-add (length drives)))
    ∙ add_cdrom-eq (length drives) m.iso m.data_source (rendered_all (disks_from 0 drives))

-- Two drives with different numbers have different identifiers.
pub drive_id-injective : {i j : ℕ} → drive_id i ≡ drive_id j → i ≡ j
unfolding lit
drive_id-injective {i} {j} e = decimal-injective {m = i} {n = j} (cc)
