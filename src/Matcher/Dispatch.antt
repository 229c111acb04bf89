-- ===== src/Matcher/Dispatch.antt =====
-- The methods of the interface `types.Machine`, by the kind of the machine.
use peg.Base.{Option, none}
use peg.Text.{Text}
use peg.World.{M, ⊤, Env, Error, ◌>>=◌, pure}
use peg.Machine.Kind.{Machine, config, qemu_machine, docker_machine, vbox_machine}
use peg.Machine.Qemu.Create.{Context}
use peg.Machine.Qemu.Create as Qemu
use peg.Machine.Qemu.Monitor as Socket
use peg.Machine.Docker as Docker
use peg.Machine.Vbox as Vbox
use peg.Controller

module _ (E : Env) where
  -- The machine comes back, since QEMU keeps its process. An error of the process comes with the
  -- new machine.
  abbrev pub create : Machine → Context → M (Machine × Context × Option Error)
  create (qemu_machine q) ctx = do
    (q', ctx', e) ← Qemu.create E q ctx
    pure (qemu_machine q', ctx', e)
  create (docker_machine d) ctx = do
    ctx' ← Docker.create E d ctx
    pure (docker_machine d, ctx', none)
  create (vbox_machine v) ctx = do ctx' ← Vbox.create E v ctx; pure (vbox_machine v, ctx', none)

  abbrev pub stop : Machine → M ⊤
  stop (qemu_machine q) = Qemu.stop E q
  stop (docker_machine d) = Docker.stop E d
  stop (vbox_machine v) = Vbox.stop E v

  abbrev pub clean : Machine → M ⊤
  clean (qemu_machine q) = Qemu.clean E q
  clean (docker_machine d) = Docker.clean E d
  clean (vbox_machine v) = Vbox.clean E v

  abbrev pub screenshot : Machine → M Text
  screenshot (qemu_machine q) = Socket.screenshot E q
  screenshot (docker_machine d) = Docker.screenshot E d
  screenshot (vbox_machine v) = Vbox.screenshot E v

  abbrev pub detach_cd : Machine → M ⊤
  detach_cd (qemu_machine q) = Socket.detach_cd E q
  detach_cd (docker_machine d) = Docker.detach_cd E d
  detach_cd (vbox_machine v) = Vbox.detach_cd E v

  abbrev pub command : Machine → Text → M (Text × Option Error)
  command (docker_machine d) cmd = Docker.command E d cmd
  command m cmd = Controller.ssh_command E (config m) cmd

  abbrev pub receive_file : Machine → Text → Text → M ⊤
  receive_file (docker_machine d) src dst = Docker.receive_file E d src dst
  receive_file m src dst = Controller.receive_file E (config m) src dst

  abbrev pub send_file : Machine → Text → Text → Text → M ⊤
  send_file (docker_machine d) src dst permissions = Docker.send_file E d src dst permissions
  send_file m src dst permissions = Controller.send_file E (config m) src dst permissions
