-- ===== src/Signals/Laws.antt =====
-- What a stop signal does.
use peg.Base.{◌≡◌, refl, false, List, [], ◌∷◌, arith}
use peg.Text.{Text, is_empty}
use peg.World.{Env, Event, Cleanup, remove_state_dir, stop_and_clean, History, ok, ◌▷◌}
use peg.Machine.Kind.{Machine, Qemu, qemu_machine}
use peg.Machine.Qemu.Create as Qemu
use peg.Matcher.Dispatch as Dispatch
use peg.Matcher.Safety.{stop-NoPanic, clean-NoPanic}
use peg.Signals.{cleanup_fn, run_cleanup, run_all, on_stop_signal}

module _ (E : Env) (m : Machine) where
  -- What is done at each registered function, whatever the calls reply.
  abbrev pub cleaned_by : Cleanup → History → History
  cleaned_by (remove_state_dir f) h = h ▷ Event.remove_all f
  cleaned_by stop_and_clean h = (Dispatch.clean E m (Dispatch.stop E m h).1).1

  abbrev pub cleaned_by_all : List Cleanup → History → History
  cleaned_by_all [] h = h
  cleaned_by_all (f ∷ fs) h = cleaned_by_all fs (cleaned_by f h)

  run_cleanup-eq : (f : Cleanup) (h : History) → run_cleanup E m f h ≡ (ok tt, cleaned_by f h)
  unfolding run_cleanup
  run_cleanup-eq (remove_state_dir f) h = refl
  run_cleanup-eq stop_and_clean h =
      ground (arith, stop-NoPanic E m h, clean-NoPanic E m (Dispatch.stop E m h).1)

  run_all-eq : (fs : List Cleanup) (h : History) → run_all E m fs h ≡ (ok tt, cleaned_by_all fs h)
  unfolding run_all
  run_all-eq [] h = refl
  run_all-eq (f ∷ fs) h = ground (arith, run_cleanup-eq f h, run_all-eq fs (cleaned_by f h))

  -- On a signal every registered function runs, in the order of registration and whatever the ones
  -- before it met, and the program exits last.
  pub on_stop_signal-eq :
      (h : History) → on_stop_signal E m h ≡ (ok tt, cleaned_by_all (cleanup_fn h) h ▷ Event.exit_1)
  unfolding on_stop_signal
  on_stop_signal-eq h = ground (arith, run_all-eq (cleanup_fn h) h)

-- A QEMU machine in a temporary directory, as `New` and `Run` register its cleanups: on a signal the
-- directory is removed before the process in it is stopped.
pub on_stop_signal-removes_first :
    (E : Env) (q : Qemu) (d : Text) (h : History)
    → q.machine_config.state_dir ≡ d
    → is_empty d ≡ false
    → cleanup_fn h ≡ remove_state_dir d ∷ stop_and_clean ∷ []
    → on_stop_signal E (qemu_machine q) h
      ≡ (ok tt, h ▷ Event.remove_all d ▷ Event.stop_process d ▷ Event.remove_all d ▷ Event.exit_1)
unfolding Qemu.stop Qemu.clean
on_stop_signal-removes_first E q d h s n r = ground (arith, on_stop_signal-eq E (qemu_machine q) h)
