-- ===== src/Tests/World.antt =====
-- A world, configurations and machines for the tests.
use peg.Base.{true, false, none, some, [], ◌∷◌, if◌then◌else◌}
use peg.Text.{Text, lit, text_eq}
use peg.World.{Env, Event, Reply, external}
use peg.Config.{Ssh, MachineConfig, default_machine_config, qemu}
use peg.Machine.Kind.{Machine, Qemu, VBox, docker_machine}
use peg.Machine.Download.{UrlParser}

abbrev pub nothing : Reply
nothing = record { text = []; number = 0; flag = true; error = none }

abbrev pub says : Text → Reply
says t = record nothing { text = t }

abbrev pub missing : Reply
missing = record nothing { error = some (external (lit "no such file")) }

-- One specfile exists and no other file, commands print `aaa`, processes are dead and have failed, and all else works.
abbrev pub world : Env
world h (Event.exec cmd) = says (lit "aaa")
world h (Event.stat path) =
    if text_eq path (lit "spec.yaml") then record nothing { flag = false } else missing
world h (Event.make_temp_dir pattern) = says (lit "/tmp/peg1")
world h (Event.random n) = says (lit "0123456789")
world h Event.free_port = record nothing { number = 2222 }
world h (Event.checksum function path) = says (lit "cafe")
world h (Event.process_alive dir) = record nothing { flag = false }
world h (Event.exit_code dir) = says (lit "1")
world h e = nothing

abbrev pub ssh : Ssh
ssh = record { user = lit "c3os"; port = lit "2222"; pass = lit "c3os" }

-- A machine of one drive and an ISO.
abbrev pub machine : MachineConfig
machine = record default_machine_config {
  id = lit "vm";
  state_dir = lit "/tmp/peg1";
  iso = lit "c3os.iso";
  drives = lit "a.img" ∷ [];
  ssh = some ssh;
  engine = qemu;
  process = lit "/usr/bin/qemu";
}

abbrev pub alpine : Machine
alpine =
    docker_machine
      (record { machine_config = record machine { image = lit "alpine"; process = [] } })

abbrev pub qemu_vm : Qemu
qemu_vm = record { machine_config = machine; process = none }

abbrev pub vbox_vm : VBox
vbox_vm = record { machine_config = machine }

-- A parser that takes every text for a URL.
abbrev pub parser : UrlParser
parser = record { parse_request_uri = λ t. true; parse = λ t. some (lit "https", lit "host") }
