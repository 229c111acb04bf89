-- ===== src/Machine/New.antt =====
-- `New`.
pub mod Laws
use peg.Base.{Bool, true, false, Option, none, some, List, [], ◌∷◌, ◌++◌, if◌then◌else◌}
use peg.Text.{Text, lit, text_eq}
use peg.World.{
  M, ⊤, Env, Exit, ok, err, panic, Error, message, wrap, wrapped, ◌>>=◌, ◌>>◌, pure, fail, same,
  return_if,
}
use peg.Config.{MachineConfig, MachineOption, default_machine_config, apply, qemu, docker, vbox}
use peg.Machine.Kind.{Machine, qemu_machine, docker_machine, vbox_machine}
use peg.Machine.Download.{UrlParser}
use peg.Machine.Prepare.{prepare}

-- Runs a call and changes the error that it returns.
abbrev pub map_error : {A : Type 0} → (Error → Error) → M A → M A
map_error f m h =
    let (r, h') = m h in
    elim r [ ok a ↦ (ok a, h') | err e ↦ (err (f e), h') | panic ↦ (panic, h') ]

-- The text of the error goes on with a dump of the configuration, addresses included, which is
-- left out.
unfoldable pub invalid_engine : Text → Error
invalid_engine engine = message (lit "invalid engine: " ++ engine)

unfoldable pub choose_engine : MachineConfig → M Machine
choose_engine mc =
    if text_eq mc.engine qemu
    then pure (qemu_machine (record { machine_config = mc; process = none }))
    else if text_eq mc.engine docker
    then pure (docker_machine (record { machine_config = mc }))
    else if text_eq mc.engine vbox
    then pure (vbox_machine (record { machine_config = mc }))
    else fail (invalid_engine mc.engine)

module _ (E : Env) (U : UrlParser) where
  unfoldable pub new : List MachineOption → M Machine
  new opts = do
    (mc, e) ← apply opts default_machine_config
    return_if same e
    mc' ← map_error (wrapped (lit "failure while preparing: ")) (prepare E U mc)
    choose_engine mc'
