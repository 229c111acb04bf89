-- ===== src/World.antt =====
-- Errors, what the program does to the world outside, and the monad of its functions.
--
-- The world (shell, files, processes, network, random bytes, libraries under go.mod) is a function
-- `Env` from all that has happened so far and the next call to the reply; it is a parameter.
pub mod Laws
pub mod Ensures
use peg.Base.{ℕ, Bool, true, false, Option, none, some, List, [], ◌∷◌, ◌++◌, if◌then◌else◌}
use peg.Text.{Text, lit}

-- An `error` that is not nil: one from outside, one of the code's own, and one that it wraps by
-- `fmt.Errorf` with `%w` or by `errors.Wrap`.
pub data Error : Type 0 where
  external : Text → Error
  message : Text → Error
  wrap : Text → Error → Text → Error

-- `err.Error()`
unfoldable pub error_text : Error → Text
error_text (external t) = t
error_text (message t) = t
error_text (wrap before e after) = before ++ (error_text e ++ after)

-- What a function handed to `signals.AddCleanupFn` does: remove a state directory, or stop and
-- clean the machine that `Run` made.
pub data Cleanup : Type 0 where
  remove_state_dir : Text → Cleanup
  stop_and_clean : Cleanup

-- A call that leaves the program.
pub data Event : Type 0 where
  exec : Text → Event
  make_temp_dir make_temp_file : Text → Event
  free_port read_stdin exit_1 : Event
  random sleep : ℕ → Event
  grab_request grab_do checksum : Text → Text → Event
  stat look_path mkdir_all remove_all remove create open_file read_file : Text → Event
  mkdir chmod : Text → ℕ → Event
  run_process : Text → List Text → Text → Event
  stop_process process_alive exit_code : Text → Event
  start_monitor : Text → Option ℕ → Event
  invoke : ℕ → Text → Event
  cancel_context : Event
  dial_unix write_conn : Text → Event
  set_read_deadline read_conn close_conn close_file : Event
  dial_tcp : Text → Event
  ssh_handshake : Text → Text → Event
  start_keepalive ssh_session close_client close_session : Event
  ssh_output ssh_run ssh_pipe : Text → Event
  write_stdin : Text → Event
  copy_output wait_stdin : Event
  scp_connect : Text → Text → Text → Event
  scp_from_remote : Text → Event
  scp_to_remote : Text → Text → Event
  close_scp set_write_deadline : Event
  start_polling : ℕ → Event
  add_cleanup : Cleanup → Event
  handle_signals : Event
  print_line : Text → Event

-- All calls so far, the newest first; `h ▷ a ▷ b` reads from left to right in time.
abbrev pub History : Type 0
History = List Event

infixl 60 ◌▷◌
abbrev pub ◌▷◌ : History → Event → History
h ▷ e = e ∷ h

-- What a call gives back. A call reads the fields that it has a use for.
pub record Reply : Type 0 where
  pub text : Text
  pub number : ℕ
  pub flag : Bool
  pub error : Option Error

abbrev pub Env : Type 0
Env = History → Event → Reply

-- How a call of a Go function ends: it returns (a nil error, where it has one), it returns an
-- error, or it panics.
pub data Exit (A : Type 0) : Type 0 where
  ok : A → Exit A
  err : Error → Exit A
  panic : Exit A

abbrev pub M : Type 0 → Type 0
M A = History → Exit A × History

abbrev pub ⊤ : Type 0
⊤ = Unit

module _ {A : Type 0} where
  abbrev pub pure : A → M A
  pure a h = (ok a, h)

  abbrev pub fail : Error → M A
  fail e h = (err e, h)

  abbrev pub panics : M A
  panics h = (panic, h)

infixl 5 ◌>>=◌ ◌>>◌
abbrev pub ◌>>=◌ : {A B : Type 0} → M A → (A → M B) → M B
◌>>=◌ m f h =
    let (r, h') = m h in elim r [ ok a ↦ f a h' | err e ↦ (err e, h') | panic ↦ (panic, h') ]

abbrev pub ◌>>◌ : {A B : Type 0} → M A → M B → M B
m >> k = m >>= λ _. k

-- `if err != nil { return f(err) }`
abbrev pub return_if : (Error → Error) → Option Error → M ⊤
return_if f none h = (ok tt, h)
return_if f (some e) h = (err (f e), h)

abbrev pub same : Error → Error
same e = e

-- fmt.Errorf with a text before `%w`
abbrev pub wrapped : Text → Error → Error
wrapped before e = wrap before e []

module _ (E : Env) where
  -- The call, with all that it returns.
  abbrev pub call : Event → M Reply
  call e h = (ok (E h e), h ▷ e)

  -- The call, in code that returns its error at once, changed by `f`.
  abbrev pub try_with : (Error → Error) → Event → M Reply
  try_with f e h = elim (E h e).error [ none ↦ (ok (E h e), h ▷ e) | some x ↦ (err (f x), h ▷ e) ]

  abbrev pub try : Event → M Reply
  try = try_with same

-- `defer`: the last calls of a function that has come this far, however it ends.
unfoldable pub finally : {A : Type 0} → M ⊤ → M A → M A
finally cleanup m h = let (r, h') = m h in let (_, h'') = cleanup h' in (r, h'')
