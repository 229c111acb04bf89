-- ===== src/Machine/Prepare.antt =====
-- `prepare`: what `New` fills in, and what it downloads and checks, before it makes a machine.
pub mod Laws
pub mod Checksum
use peg.Base.{ℕ, Bool, true, false, not, Option, none, some, List, [], ◌∷◌, ◌++◌, if◌then◌else◌}
use peg.Text.{Text, lit, is_empty, text_eq, split, to_lower, decimal}
use peg.Text.FilePath.{join_path}
use peg.World.{
  M, ⊤, Env, Event, Error, message, remove_state_dir, ◌>>=◌, ◌>>◌, pure, fail, panics, call, try,
}
use peg.Config.{Ssh, MachineConfig}
use peg.Machine.Random.{rand_string_runes}
use peg.Machine.Download.{UrlParser, is_valid_url, download}

unfoldable pub checksum_err : Text → Text → Error
checksum_err got expected =
    message (lit "checksum mismatch: got " ++ (got ++ (lit ", expected " ++ expected)))

-- The algorithm and the hash, from the pieces of the configured checksum. With more than one colon
-- both stay empty.
abbrev pick_pieces : Text → List Text → Text × Text
pick_pieces s (hash ∷ []) = (lit "sha256", s)
pick_pieces s (alg ∷ hash ∷ []) = (alg, hash)
pick_pieces s _ = ([], [])

unfoldable pub checksum_pieces : Text → Text × Text
unfolding split
checksum_pieces s = pick_pieces s (split s b':')

-- The `switch`: the library's function for the algorithm, if there is a case for it.
unfoldable pub checksum_function : Text → Option Text
checksum_function alg =
    if text_eq (to_lower alg) (lit "blake2s256")
    then some (lit "blake2s256")
    else if text_eq (to_lower alg) (lit "md5")
    then some (lit "md5")
    else if text_eq (to_lower alg) (lit "sha256")
    then some (lit "sha256")
    else none

module _ (E : Env) where
  -- The body of a case of the `switch`; with no case nothing is done.
  unfoldable pub compare_checksum : Option Text → Text → Text → M ⊤
  compare_checksum none hash dst = pure tt
  compare_checksum (some function) hash dst = do
    r ← try E (Event.checksum function dst)
    if text_eq r.text hash then pure tt else fail (checksum_err r.text hash)

  unfoldable pub verify_checksum : Text → Text → M ⊤
  verify_checksum iso_checksum dst =
      if is_empty iso_checksum
      then pure tt
      else (let (alg, hash) = checksum_pieces iso_checksum in
          compare_checksum (checksum_function alg) hash dst)

  unfoldable pub give_id : MachineConfig → M MachineConfig
  give_id mc =
      if is_empty mc.id
      then (do id ← rand_string_runes E 10; pure (record mc { id = id }))
      else pure mc

  unfoldable pub give_state_dir : MachineConfig → M MachineConfig
  give_state_dir mc =
      if is_empty mc.state_dir
      then (do
        r ← try E (Event.make_temp_dir (lit "peg"))
        call E (Event.add_cleanup (remove_state_dir r.text))
        pure (record mc { state_dir = r.text }))
      else pure mc

  -- `mc.SSH.Port` panics if `mc.SSH` is nil.
  unfoldable pub give_ssh_port : Option Ssh → MachineConfig → M MachineConfig
  give_ssh_port none mc = panics
  give_ssh_port (some s) mc =
      if is_empty s.port
      then (do
        r ← try E Event.free_port
        pure (record mc { ssh = some (record s { port = decimal r.number }) }))
      else pure mc

  module _ (U : UrlParser) where
    unfoldable pub fetch_iso : MachineConfig → M MachineConfig
    fetch_iso mc =
        if is_valid_url U mc.iso
        then (do
          name ← rand_string_runes E 10
          let dst = join_path mc.state_dir (name ++ lit ".iso")
          download E mc.iso dst
          verify_checksum mc.iso_checksum dst
          pure (record mc { iso = dst }))
        else pure mc

    unfoldable pub fetch_data_source : MachineConfig → M MachineConfig
    fetch_data_source mc =
        if is_valid_url U mc.data_source
        then (do
          name ← rand_string_runes E 10
          let dst = join_path mc.state_dir (name ++ lit ".iso")
          download E mc.data_source dst
          pure (record mc { data_source = dst }))
        else pure mc

    unfoldable pub prepare : MachineConfig → M MachineConfig
    prepare mc = do
      mc₁ ← give_id mc
      mc₂ ← give_state_dir mc₁
      mc₃ ← give_ssh_port mc₂.ssh mc₂
      mc₄ ← fetch_iso mc₃
      fetch_data_source mc₄
