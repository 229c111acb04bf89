-- ===== src/Matcher/Helpers.antt =====
-- The functions `machine…`. An expectation of gomega that is not met ends the spec: it is an error
-- here, as is the end of its polling.
use peg.Base.{
  ℕ, zero, suc, Bool, true, false, not, Option, none, some, List, [], ◌∷◌, ◌++◌, if◌then◌else◌,
}
use peg.Text.{Text, lit}
use peg.World.{
  M, ⊤, Env, Event, Error, message, wrapped, ok, err, panic, ◌>>=◌, ◌>>◌, pure, fail, panics, call,
  try_with, return_if, same, finally,
}
use peg.Machine.Kind.{Machine, config}
use peg.Matcher.Gomega.{Gomega, OmegaMatcher}
use peg.Matcher.Dispatch as Dispatch
use peg.Controller.{new_client, do_call}

-- A `for` over a list of texts whose body returns no error.
abbrev pub each : (Text → M ⊤) → List Text → M ⊤
each f [] = pure tt
each f (x ∷ xs) = f x >> each f xs

-- Runs a call, and goes on after an error, which is only printed.
abbrev pub ignore_error : {A : Type 0} → M A → M ⊤
ignore_error m h = let (r, h') = m h in elim r [ panic ↦ (panic, h') | _ ↦ (ok tt, h') ]

-- A text with "\n" behind it.
abbrev pub line : Text → Text
line t = t ++ (10 ∷ [])

-- The first of the variadic arguments, or the default.
abbrev pub first_or : ℕ → List ℕ → ℕ
first_or default [] = default
first_or default (t ∷ ts) = t

abbrev pub expectation : Text → Error
expectation what = message what

-- What a match is worth to `To`, and negated to `ToNot`.
abbrev pub meets : Bool → Bool → Bool
meets false matched = matched
meets true matched = not matched

-- `Expect(out).To(matcher)` and, negated, `Expect(out).ToNot(matcher)`
abbrev pub expect : Bool → OmegaMatcher → Text → M ⊤
expect negated matcher out =
    if meets negated (matcher out) then pure tt else fail (expectation (lit "matcher"))

-- `Expect(err).ToNot(HaveOccurred())`
abbrev pub expect_no_error : Option Error → M ⊤
expect_no_error = return_if same

module _ (E : Env) where
  abbrev pipe : Text → Text → M ⊤
  pipe name what = do
    try_with E (wrapped (lit "setting up " ++ (what ++ lit " pipe: "))) (Event.ssh_pipe name)
    pure tt

  -- `io.Copy` into the buffer; on its error the code panics.
  abbrev copy : M Text
  copy = do r ← call E Event.copy_output; elim r.error [ none ↦ pure r.text | some e ↦ panics ]

  -- The deferred function waits for the goroutine that writes the command to the shell, and closes
  -- client and session.
  abbrev wait_and_close : M ⊤
  wait_and_close = do
    do_call E Event.wait_stdin
    do_call E Event.close_client
    do_call E Event.close_session

  abbrev pipes : M ⊤
  pipes = do
    pipe (lit "stdout") (lit "stdout")
    pipe (lit "stderr") (lit "stderr")
    pipe (lit "stdin") (lit "stdin")

  -- `return` on an error, through the deferred function.
  abbrev close_on_error : M ⊤ → M ⊤
  close_on_error m h =
      let (r, h') = m h in
      elim r [ ok a ↦ (ok a, h') | err e ↦ (err e, (wait_and_close h').1) | panic ↦ (panic, h') ]

  -- The goroutine's copy to the shell, which comes before the run of the shell here. On its error the goroutine panics, which ends the program: no
  -- deferred function of the caller runs.
  unfoldable pub write_stdin : Text → M ⊤
  write_stdin c = do
    w ← call E (Event.write_stdin c)
    elim w.error [ none ↦ pure tt | some e ↦ panics ]

  unfoldable pub machine_sudo : Machine → Text → M (Text × Option Error)
  unfolding write_stdin
  machine_sudo m c = do
    new_client E (config m)
    close_on_error pipes
    write_stdin c
    finally wait_and_close (do
      r ← call E (Event.ssh_run (lit "sudo /bin/sh"))
      out ← copy
      more ← copy
      pure (out ++ more, r.error))

module _ (E : Env) (G : Gomega) where
  -- `test -f` or `test -d` on the machine, which must say `ok`.
  unfoldable pub machine_has : Text → Machine → Text → M ⊤
  machine_has flag m s = do
    (out, e) ←
        Dispatch.command E m
          (lit "if [ " ++ (flag ++ (lit " " ++ (s ++ lit " ]; then echo ok; else echo wrong; fi"))))
    expect_no_error e
    expect false (G.equal (line (lit "ok"))) out

  unfoldable pub machine_has_file : Machine → Text → M ⊤
  unfolding machine_has
  machine_has_file = machine_has (lit "-f")

  unfoldable pub machine_has_dir : Machine → Text → M ⊤
  unfolding machine_has
  machine_has_dir = machine_has (lit "-d")

  -- The polling of `Eventually`, every five seconds, with the polls that are left before the
  -- timeout. The error of the command is ignored.
  unfoldable pub poll_ping : ℕ → Machine → M ⊤
  poll_ping zero m = fail (expectation (lit "Machine did not become reachable in time"))
  poll_ping (suc n) m = do
    (out, e) ← Dispatch.command E m (lit "echo ping")
    let again : M ⊤ = do do_call E (Event.sleep 5); poll_ping n m
    if G.equal (line (lit "ping")) out then pure tt else again

  -- The reply's number is that of the polls that gomega makes within the seconds.
  unfoldable pub machine_eventually_connects : Machine → List ℕ → M ⊤
  machine_eventually_connects m t = do
    r ← call E (Event.start_polling (first_or 360 t))
    poll_ping r.number m

  -- Errors of `reboot` are ignored: the machine drops the connection.
  unfoldable pub machine_reboot : Machine → List ℕ → M ⊤
  machine_reboot m t h =
      let (r, h') = machine_sudo E m (lit "reboot") h in
      elim r [
        | panic ↦ (panic, h')
        | _ ↦
            (do do_call E (Event.sleep 60); machine_eventually_connects m (first_or 750 t ∷ [])) h'
      ]
