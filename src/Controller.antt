-- ===== src/Controller.antt =====
-- pkg/controller: SSH and SCP to a machine, and the connection with deadlines under them. The
-- libraries golang.org/x/crypto/ssh and go-scp are calls of the world.
pub mod Files
use peg.Base.{ℕ, ◌+◌, ◌≡◌, Option, none, some, [], ◌∷◌, ◌++◌, arith}
use peg.Text.{Text, lit}
use peg.World.{
  M, ⊤, Env, Event, Reply, Error, History, ok, err, panic, ◌>>=◌, ◌>>◌, pure, panics, call, try,
  return_if, same, finally,
}
use peg.Config.{Ssh, MachineConfig}

-- Runs a call that may return an error, and gives the empty text with it.
abbrev pub output_or_error : M (Text × Option Error) → M (Text × Option Error)
output_or_error m h =
    let (r, h') = m h in
    elim r [ ok a ↦ (ok a, h') | err e ↦ (ok ([], some e), h') | panic ↦ (panic, h') ]

-- `m.Config().SSH` panics where it is used, if it is nil.
abbrev pub with_ssh : {A : Type 0} → MachineConfig → (Ssh → M A) → M A
with_ssh mc f = elim mc.ssh [ none ↦ panics | some s ↦ f s ]

abbrev pub dial_addr : Ssh → Text
dial_addr s = lit "127.0.0.1:" ++ s.port

module _ (E : Env) where
  abbrev pub do_call : Event → M ⊤
  do_call e = do call E e; pure tt

  -- `(c *Conn) Read` and `Write`
  unfoldable pub conn_read : M Reply
  conn_read = do try E Event.set_read_deadline; call E Event.read_conn

  unfoldable pub conn_write : Text → M Reply
  conn_write b = do try E Event.set_write_deadline; call E (Event.write_conn b)

  -- `SSHDialTimeout`, with the goroutine that sends a keepalive every two seconds.
  unfoldable pub ssh_dial_timeout : Ssh → M ⊤
  ssh_dial_timeout s = do
    try E (Event.dial_tcp (dial_addr s))
    try E (Event.ssh_handshake s.user s.pass)
    do_call Event.start_keepalive

  -- `NewClient`: a client with a session.
  unfoldable pub new_client : MachineConfig → M ⊤
  new_client mc = with_ssh mc λ s. do
    ssh_dial_timeout s
    r ← call E Event.ssh_session
    elim r.error [
      | none ↦ pure tt
      | some e ↦ (do do_call Event.close_client; return_if same (some e))
    ]

  unfoldable pub ssh_command : MachineConfig → Text → M (Text × Option Error)
  ssh_command mc cmd = output_or_error (do
    new_client mc
    finally (do_call Event.close_client)
        (do r ← call E (Event.ssh_output cmd); pure (r.text, r.error)))

  -- `NewSCPClient` only makes a value; the address and the login go into the call of `Connect`.
  unfoldable pub scp_connect : Ssh → M ⊤
  scp_connect s = do try E (Event.scp_connect (dial_addr s) s.user s.pass); pure tt

  unfoldable pub receive_file : MachineConfig → Text → Text → M ⊤
  receive_file mc src dst = with_ssh mc λ s. do
    scp_connect s
    finally (do_call Event.close_scp) (do
      try E (Event.create dst)
      finally (do_call Event.close_file) (do try E (Event.scp_from_remote src); pure tt))

  -- The client is closed on every path, and once more after the file has been opened.
  unfoldable pub send_file : MachineConfig → Text → Text → Text → M ⊤
  send_file mc src dst permission = with_ssh mc λ s. finally (do_call Event.close_scp) (do
    scp_connect s
    try E (Event.open_file src)
    finally (do_call Event.close_scp) (
        finally (do_call Event.close_file)
          (do try E (Event.scp_to_remote dst permission); pure tt)))

-- Whether a call closed the client, and whether it opened one: the handshake was made.
abbrev is_close : Event → ℕ
is_close Event.close_client = 1
is_close _ = 0

abbrev is_keepalive : Event → ℕ
is_keepalive Event.start_keepalive = 1
is_keepalive _ = 0

-- How many SSH clients were made, and how many were closed.
unfoldable pub clients_made : History → ℕ
clients_made [] = 0
clients_made (e ∷ t) = is_keepalive e + clients_made t

unfoldable pub clients_closed : History → ℕ
clients_closed [] = 0
clients_closed (e ∷ t) = is_close e + clients_closed t

-- `SSHCommand` closes every client that it makes: if as many were closed as made before it, then the
-- same holds behind it, on each path.
pub ssh_command-closes :
    (E : Env) (mc : MachineConfig) (cmd : Text) (h : History)
    → clients_made h ≡ clients_closed h
    → let t = (ssh_command E mc cmd h).1 in clients_made t ≡ clients_closed t
unfolding ssh_command new_client ssh_dial_timeout finally clients_made clients_closed
ssh_command-closes E mc cmd h e = ground arith
