-- ===== src/Machine/New/Laws.antt =====
-- What `New` returns.
use peg.Base.{◌≡◌, List, arith}
use peg.Text.Laws.{text_eq_iff}
use peg.World.{Env, History}
use peg.World.Ensures.{Returns}
use peg.Config.{MachineConfig, MachineOption, qemu, docker, vbox}
use peg.Machine.Kind.{Machine, config, qemu_machine, docker_machine, vbox_machine}
use peg.Machine.Download.{UrlParser}
use peg.Machine.Prepare.Laws.{IsPrepared, NamesTempDirs, prepare-IsPrepared}
use peg.Machine.New.{choose_engine, new}

-- The machine is of the kind that its engine names.
abbrev pub EngineFits : Machine → Type 0
EngineFits (qemu_machine q) = q.machine_config.engine ≡ qemu
EngineFits (docker_machine d) = d.machine_config.engine ≡ docker
EngineFits (vbox_machine v) = v.machine_config.engine ≡ vbox

choose_engine-EngineFits :
    (mc : MachineConfig) (h : History)
    → Returns (λ m. EngineFits m × (config m ≡ mc)) (choose_engine mc h)
unfolding choose_engine
choose_engine-EngineFits mc h =
    ground
      (arith, text_eq_iff mc.engine qemu, text_eq_iff mc.engine docker, text_eq_iff mc.engine vbox)

module _ (E : Env) (U : UrlParser) where
  -- Given that temporary directories have names, and whatever the options did, a machine that `New` returns is of the kind that its engine names,
  -- and has an id, a state directory and an SSH port.
  pub new-IsPrepared :
      NamesTempDirs E
      → (opts : List MachineOption) (h : History)
      → Returns (λ m. EngineFits m × IsPrepared (config m)) (new E U opts h)
  unfolding new
  new-IsPrepared names opts h =
      grind (arith, prepare-IsPrepared E U names, choose_engine-EngineFits)
