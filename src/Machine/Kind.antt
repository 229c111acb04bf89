-- ===== src/Machine/Kind.antt =====
-- The structs QEMU, Docker and VBox, and the interface that they share.
use peg.Base.{Option, List}
use peg.Text.{Text}
use peg.Config.{MachineConfig}

-- `process.Process` as the code makes it: the program, its arguments and its state directory.
pub record Process : Type 0 where
  pub name : Text
  pub args : List Text
  pub state_dir : Text

pub record Qemu : Type 0 where
  pub machine_config : MachineConfig
  pub process : Option Process

pub record Docker : Type 0 where
  pub machine_config : MachineConfig

pub record VBox : Type 0 where
  pub machine_config : MachineConfig

pub data Machine : Type 0 where
  qemu_machine : Qemu → Machine
  docker_machine : Docker → Machine
  vbox_machine : VBox → Machine

-- The method `Config` of the three.
abbrev pub config : Machine → MachineConfig
config (qemu_machine q) = q.machine_config
config (docker_machine d) = d.machine_config
config (vbox_machine v) = v.machine_config
