-- ===== src/Tests/Machine.antt =====
-- The machines, and what comes before them.
use peg.Base.{◌≡◌, ◌↔◌, refl, some, List, Bool, true, false, [], ◌∷◌, length, All, arith}
use peg.Text.{Text, lit, to_lower, text_eq}
use peg.World.{Exit, ok, pure, external}
use peg.World.Ensures.{Returns, ReturnsAt}
use peg.Config.Laws.{FailsAt, apply-eq-error}
use peg.Config.{MachineConfig, MachineOption, zero_config, default_machine_config, apply}
use peg.Config.Options.{with_memory, qemu_engine}
use peg.Machine.Random.{IsLetter, rand_string_runes, pick_letters, rand_string_runes-IsLetter}
use peg.Machine.Download.{download, is_valid_url}
use peg.Machine.Prepare.{
  prepare, give_id, give_state_dir, give_ssh_port, fetch_iso, fetch_data_source, verify_checksum,
  checksum_pieces,
}
use peg.Text.FilePath.{join_path}
use peg.Machine.Prepare.Laws.{IsPrepared, prepare-IsPrepared, prepare-nil_ssh}
use peg.Machine.Prepare.Checksum.{IsChecked, fetch_iso-IsChecked, verify_checksum-ignored}
use peg.Machine.Kind.{config}
use peg.Machine.New.{new, choose_engine}
use peg.Machine.New.Laws.{EngineFits, new-IsPrepared}
use peg.Tests.World.{world, machine, parser}

temp_dirs : peg.Machine.Prepare.Laws.NamesTempDirs world
unfolding lit
temp_dirs = λ h e. refl

rand_string_runes-IsLetter_example :
    Returns (λ s. (length s ≡ 10) × All IsLetter s) (rand_string_runes world 10 [])
rand_string_runes-IsLetter_example = rand_string_runes-IsLetter world 10 []

prepare-IsPrepared_example : Returns IsPrepared (prepare world parser default_machine_config [])
prepare-IsPrepared_example = prepare-IsPrepared world parser temp_dirs default_machine_config []

prepare-nil_ssh_example : Returns (λ _. ⊥) (prepare world parser zero_config [])
prepare-nil_ssh_example = prepare-nil_ssh world parser zero_config [] refl

-- A machine with a checksum for its ISO.
abbrev checked : Text → MachineConfig
checked checksum = record machine { iso_checksum = checksum }

fetch_iso-IsChecked_example :
    ReturnsAt
      (λ mc' t. IsChecked world (lit "sha256") (checksum_pieces (lit "cafe")).1 mc'.iso t)
      (fetch_iso world parser (checked (lit "cafe")) [])
unfolding lit checksum_pieces peg.Machine.Prepare.checksum_function
    peg.Machine.Download.is_valid_url to_lower text_eq
fetch_iso-IsChecked_example =
    fetch_iso-IsChecked world parser (checked (lit "cafe")) [] {function = lit "sha256"} refl refl
      refl

verify_checksum-ignored_example :
    verify_checksum world (lit "sha256:cafe:") (lit "x.iso") [] ≡ (ok tt, [])
unfolding lit
verify_checksum-ignored_example =
    verify_checksum-ignored world (lit "sha256:cafe:") (lit "x.iso") [] (omega arith)

-- The second of three options fails.
abbrev refused : MachineOption
refused mc = pure (mc, some (external (lit "no")))

abbrev options : List MachineOption
options = with_memory (lit "512") ∷ refused ∷ with_memory (lit "64") ∷ []

abbrev left_config : MachineConfig
left_config = record machine { memory = lit "512" }

apply-eq-error_example :
    (apply options machine [] ≡ (ok (left_config, some (external (lit "no"))), []))
    ↔ FailsAt options machine [] left_config (external (lit "no")) []
apply-eq-error_example = apply-eq-error options machine left_config [] [] (external (lit "no"))

apply_runs : apply options machine [] ≡ (ok (left_config, some (external (lit "no"))), [])
unfolding apply with_memory lit
apply_runs = refl

new-IsPrepared_example :
    Returns
      (λ m. EngineFits m × IsPrepared (config m))
      (new world parser (qemu_engine ∷ with_memory (lit "512") ∷ []) [])
new-IsPrepared_example =
    new-IsPrepared world parser temp_dirs (qemu_engine ∷ with_memory (lit "512") ∷ []) []

-- `New` does return a machine there.
abbrev is_ok : {A : Type 0} → Exit A → Bool
is_ok (ok a) = true
is_ok _ = false

new_runs : is_ok (new world parser (qemu_engine ∷ with_memory (lit "512") ∷ []) []).0 ≡ true
unfolding new text_eq lit apply qemu_engine with_memory prepare give_id give_state_dir give_ssh_port
    fetch_iso fetch_data_source is_valid_url rand_string_runes pick_letters download join_path
    verify_checksum choose_engine
new_runs = refl
