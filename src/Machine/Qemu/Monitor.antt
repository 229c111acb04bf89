-- ===== src/Machine/Qemu/Monitor.antt =====
-- The methods of QEMU that talk to its monitor over a unix socket.
use peg.Base.{ℕ, zero, suc, ◌≡◌, ◌≢◌, ◌⊎◌, none, [], ◌∷◌, ◌++◌, ◌==◌, arith, length, if◌then◌else◌}
use peg.Text.{Text, lit, decimal}
use peg.World.{
  M, ⊤, Env, Event, Error, message, History, ◌>>=◌, ◌>>◌, pure, fail, call, try, finally,
}
use peg.Machine.Kind.{Qemu}
use peg.Machine.Qemu.Arguments.{monitor_sock_file}

-- "\r\n"
abbrev line_end : Text
line_end = 13 ∷ 10 ∷ []

abbrev screendump : Text → Text
screendump file = lit "screendump " ++ (file ++ line_end)

abbrev eject : Text
eject = lit "eject -f ide0-cd0" ++ line_end

unfoldable pub partial_write : ℕ → ℕ → Error
partial_write n total = message (
    lit "didn't send the full command ("
    ++ (decimal n ++ (lit " out of " ++ (decimal total ++ lit " bytes)"))))

module _ (E : Env) where
  -- Reads until one fails: `n` reads before it succeed.
  unfoldable pub read_all : ℕ → M ⊤
  read_all zero = do call E Event.read_conn; pure tt
  read_all (suc n) = do call E Event.read_conn; read_all n

  -- The branch for a write without an error that is not whole is in the code, but `io.Writer`, which
  -- the environment is free to break here, rules it out.
  --
  -- Writes the command, and reads until the deadline of a second passes without data. The number in
  -- the reply of the deadline is that of the reads that still succeed.
  unfoldable pub send_command : Text → M ⊤
  send_command cmd = do
    w ← try E (Event.write_conn cmd)
    if w.number == length cmd then pure tt else fail (partial_write w.number (length cmd))
    d ← try E Event.set_read_deadline
    read_all d.number

  -- What `Screenshot` does with the connection open.
  unfoldable pub take_screenshot : M Text
  take_screenshot = do
    f ← try E (Event.make_temp_file (lit "qemu-screenshot-*.png"))
    call E Event.close_file
    call E (Event.remove f.text)
    send_command (screendump f.text)
    pure f.text

  abbrev close_connection : M ⊤
  close_connection = do call E Event.close_conn; pure tt

  unfoldable pub screenshot : Qemu → M Text
  screenshot q = do
    try E (Event.dial_unix (monitor_sock_file q.machine_config))
    finally close_connection take_screenshot

  unfoldable pub detach_cd : Qemu → M ⊤
  detach_cd q = do
    try E (Event.dial_unix (monitor_sock_file q.machine_config))
    finally close_connection (send_command eject)

  -- Either the last call was the dial, which failed, or the connection was closed last.
  abbrev pub IsClosed : Text → History → Type 0
  IsClosed sock [] = ⊥
  IsClosed sock (e ∷ t) =
      (e ≡ Event.close_conn) ⊎ ((e ≡ Event.dial_unix sock) × ((E t e).error ≢ none))

  -- `Screenshot` ends with the connection closed, or with the dial that failed.
  pub screenshot-IsClosed :
      (q : Qemu) (h : History) → IsClosed (monitor_sock_file q.machine_config) (screenshot q h).1
  unfolding screenshot finally
  screenshot-IsClosed q h = ground arith

  -- `DetachCD` ends with the connection closed, or with the dial that failed.
  pub detach_cd-IsClosed :
      (q : Qemu) (h : History) → IsClosed (monitor_sock_file q.machine_config) (detach_cd q h).1
  unfolding detach_cd finally
  detach_cd-IsClosed q h = ground arith
