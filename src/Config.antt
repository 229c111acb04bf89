-- ===== src/Config.antt =====
-- The machine configuration and its options: pkg/machine/types/config.go.
pub mod Options
pub mod Laws
use peg.Base.{ℕ, Bool, true, false, Option, none, some, List, [], ◌∷◌}
use peg.Text.{Text, lit}
use peg.World.{M, Error, ◌>>=◌, pure}

pub record Ssh : Type 0 where
  pub user : Text
  pub port : Text
  pub pass : Text

-- `type Engine string`: any text can stand in it.
abbrev pub Engine : Type 0
Engine = Text

abbrev pub vbox : Engine
vbox = lit "vbox"

abbrev pub qemu : Engine
qemu = lit "qemu"

abbrev pub docker : Engine
docker = lit "docker"

-- `ssh` is a pointer, which can be nil; `on_failure` is a function value, nil or one of the
-- caller's functions, which are numbered.
pub record MachineConfig : Type 0 where
  pub state_dir : Text
  pub image : Text
  pub iso : Text
  pub iso_checksum : Text
  pub data_source : Text
  pub drives : List Text
  pub drive_sizes : List Text
  pub auto_drive_setup : Bool
  pub id : Text
  pub memory : Text
  pub cpu : Text
  pub process : Text
  pub args : List Text
  pub display : Text
  pub cpu_type : Text
  pub disable_default_networking : Bool
  pub ssh : Option Ssh
  pub engine : Engine
  pub arch : Text
  pub on_failure : Option ℕ

-- The zero value of the struct.
abbrev pub zero_config : MachineConfig
zero_config = record {
  state_dir = [];
  image = [];
  iso = [];
  iso_checksum = [];
  data_source = [];
  drives = [];
  drive_sizes = [];
  auto_drive_setup = false;
  id = [];
  memory = [];
  cpu = [];
  process = [];
  args = [];
  display = [];
  cpu_type = [];
  disable_default_networking = false;
  ssh = none;
  engine = [];
  arch = [];
  on_failure = none;
}

-- In megabytes.
abbrev pub default_drive_size : Text
default_drive_size = lit "30000"

abbrev pub default_machine_config : MachineConfig
default_machine_config = record zero_config {
  auto_drive_setup = true;
  ssh = some (record { user = []; port = []; pass = [] });
  cpu = lit "2";
  memory = lit "2048";
  arch = lit "x86_64";
}

-- An option changes the configuration that its argument points to, and returns an error or nil. The
-- configuration comes back in both cases.
abbrev pub MachineOption : Type 0
MachineOption = MachineConfig → M (MachineConfig × Option Error)

-- `(m *MachineConfig) Apply`
unfoldable pub apply : List MachineOption → MachineOption
apply [] mc = pure (mc, none)
apply (o ∷ opts) mc = do
  (mc', e) ← o mc
  elim e [ none ↦ apply opts mc' | some x ↦ pure (mc', some x) ]
