-- ===== src/Matcher/Safety.antt =====
-- `Stop` and `Clean` of the three machines do not panic.
use peg.Base.{arith}
use peg.World.{Env, History}
use peg.World.Ensures.{NoPanic}
use peg.Machine.Kind.{Machine, qemu_machine, docker_machine, vbox_machine}
use peg.Machine.Qemu.Create as Qemu
use peg.Machine.Docker as Docker
use peg.Machine.Vbox as Vbox
use peg.Matcher.Dispatch as Dispatch

module _ (E : Env) where
  pub stop-NoPanic : (m : Machine) (h : History) → NoPanic (Dispatch.stop E m h)
  unfolding Qemu.stop Docker.stop Vbox.stop
  stop-NoPanic (qemu_machine q) h = ground arith
  stop-NoPanic (docker_machine d) h = ground arith
  stop-NoPanic (vbox_machine v) h = tt

  pub clean-NoPanic : (m : Machine) (h : History) → NoPanic (Dispatch.clean E m h)
  unfolding Qemu.clean Docker.clean Vbox.clean
  clean-NoPanic (qemu_machine q) h = ground arith
  clean-NoPanic (docker_machine d) h = ground arith
  clean-NoPanic (vbox_machine v) h = ground arith
