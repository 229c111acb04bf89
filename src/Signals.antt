-- ===== src/Signals.antt =====
-- internal/signals/signals.go. The list `cleanupFn` is that of the functions registered so far, in
-- order; the lock is held while a function is appended, and for ever once a signal has come.
pub mod Laws
use peg.Base.{ℕ, Bool, true, false, Option, none, some, List, [], ◌∷◌, ◌++◌}
use peg.Text.{Text}
use peg.World.{
  M, ⊤, Env, Event, Cleanup, remove_state_dir, stop_and_clean, History, Exit, ok, err, panic, ◌▷◌,
  ◌>>=◌, ◌>>◌, pure, call,
}
use peg.Machine.Kind.{Machine}
use peg.Matcher.Dispatch as Dispatch
use peg.Controller.{do_call}

-- The functions that one call registers.
abbrev registers : Event → List Cleanup
registers (Event.add_cleanup f) = f ∷ []
registers _ = []

-- `cleanupFn` after the calls so far.
unfoldable pub cleanup_fn : History → List Cleanup
cleanup_fn [] = []
cleanup_fn (e ∷ h) = cleanup_fn h ++ registers e

module _ (E : Env) where
  -- `AddCleanupFn`
  unfoldable pub add_cleanup_fn : Cleanup → M ⊤
  add_cleanup_fn f = do_call E (Event.add_cleanup f)

  -- `_ = f()`: an error is dropped.
  abbrev drop_error : M ⊤ → M ⊤
  drop_error m h = let (r, h') = m h in elim r [ panic ↦ (panic, h') | _ ↦ (ok tt, h') ]

  -- A registered function, where `m` is the machine of `Run`.
  unfoldable pub run_cleanup : Machine → Cleanup → M ⊤
  run_cleanup m (remove_state_dir f) = do_call E (Event.remove_all f)
  run_cleanup m stop_and_clean = do drop_error (Dispatch.stop E m); drop_error (Dispatch.clean E m)

  unfoldable pub run_all : Machine → List Cleanup → M ⊤
  run_all m [] = pure tt
  run_all m (f ∷ fs) = run_cleanup m f >> run_all m fs

  -- The body of the loop in `HandleStopSignals`: all functions in order, then `os.Exit(1)`.
  unfoldable pub on_stop_signal : Machine → M ⊤
  on_stop_signal m h = (run_all m (cleanup_fn h) >> do_call E Event.exit_1) h
