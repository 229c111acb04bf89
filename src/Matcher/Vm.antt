-- ===== src/Matcher/Vm.antt =====
-- `Vm`: a machine with the function that cancels its context.
use peg.Base.{◌≡◌, Bool, true, false, Option, none, some, arith, if◌then◌else◌}
use peg.Text.{Text}
use peg.World.{M, ⊤, Env, Event, Error, History, ok, err, panic, ◌▷◌, ◌>>◌, pure}
use peg.Machine.Kind.{Machine}
use peg.Machine.Qemu.Create.{Context, with_cancel}
use peg.Matcher.Helpers.{ignore_error}
use peg.Matcher.Dispatch as Dispatch
use peg.Matcher.Safety.{stop-NoPanic, clean-NoPanic}
use peg.Controller.{do_call}

-- `machine` and `cancelFunc` may be nil; the latter is a flag here.
pub record Vm : Type 0 where
  pub machine : Option Machine
  pub has_cancel : Bool
  pub state_dir : Text

unfoldable pub new_vm : Machine → Text → Vm
new_vm m s = record { machine = some m; has_cancel = false; state_dir = s }

module _ (E : Env) where
  -- `Start`; with a nil machine the code panics. The function that cancels is kept, whether or not
  -- `Create` succeeds.
  unfoldable pub start : Vm → Context → M (Vm × Context × Option Error)
  start vm ctx h = elim vm.machine [
    | none ↦ (panic, h)
    | some m ↦
        let (r, h') = Dispatch.create E m (with_cancel ctx) h in
        elim r [
          | ok (m', ctx', e) ↦
              (ok (record vm { machine = some m'; has_cancel = true }, ctx', e), h')
          | err e ↦ (ok (record vm { has_cancel = true }, with_cancel ctx, some e), h')
          | panic ↦ (panic, h')
        ]
  ]

  abbrev cancel : Bool → M ⊤
  cancel true = do_call E Event.cancel_context
  cancel false = pure tt

  unfoldable pub stop_and_clean : Option Machine → M ⊤
  stop_and_clean none = pure tt
  stop_and_clean (some m) = do ignore_error (Dispatch.stop E m); ignore_error (Dispatch.clean E m)

  -- `Destroy`, with the caller's cleanup, which may be nil.
  unfoldable pub destroy : Option (Vm → M ⊤) → Vm → M ⊤
  destroy additional_cleanup vm = do
    elim additional_cleanup [ none ↦ pure tt | some f ↦ f vm ]
    cancel vm.has_cancel
    do_call E (Event.sleep 1)
    stop_and_clean vm.machine

  -- A VM with a machine, and no cleanup of the caller's: `Destroy` cancels the context if there is
  -- one to cancel, waits a second, then calls `Stop` and, whatever that returned, `Clean`, and
  -- returns normally, whatever both returned.
  pub destroy-stops_and_cleans :
      (vm : Vm) (m : Machine) (h : History)
      → vm.machine ≡ some m
      → let h₁ : History =
          (if vm.has_cancel then h ▷ Event.cancel_context else h) ▷ Event.sleep 1 in
        destroy none vm h ≡ (ok tt, (Dispatch.clean E m (Dispatch.stop E m h₁).1).1)
  unfolding destroy stop_and_clean
  destroy-stops_and_cleans vm m h e =
      let h₁ : History = (if vm.has_cancel then h ▷ Event.cancel_context else h) ▷ Event.sleep 1 in
      ground (arith, stop-NoPanic E m h₁, clean-NoPanic E m (Dispatch.stop E m h₁).1)
