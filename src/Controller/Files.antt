-- ===== src/Controller/Files.antt =====
-- The files and SCP clients that `ReceiveFile` and `SendFile` open.
use peg.Base.{ℕ, ◌+◌, ◌≡◌, ◌≤◌, Option, none, some, [], ◌∷◌, arith}
use peg.Text.{Text}
use peg.World.{Env, Event, Error, History, finally}
use peg.Config.{MachineConfig}
use peg.Controller.{receive_file, send_file, scp_connect}

-- One if the call went through.
abbrev went_through : Option Error → ℕ
went_through none = 1
went_through (some e) = 0

abbrev opened_file : Event → Option Error → ℕ
opened_file (Event.create path) e = went_through e
opened_file (Event.open_file path) e = went_through e
opened_file _ e = 0

abbrev closed_file : Event → ℕ
closed_file Event.close_file = 1
closed_file _ = 0

abbrev connected : Event → Option Error → ℕ
connected (Event.scp_connect addr user pass) e = went_through e
connected _ e = 0

abbrev closed_scp : Event → ℕ
closed_scp Event.close_scp = 1
closed_scp _ = 0

module _ (E : Env) where
  -- Files that were opened and closed, and SCP clients that were connected and closed.
  unfoldable pub files_opened : History → ℕ
  files_opened [] = 0
  files_opened (e ∷ h) = opened_file e (E h e).error + files_opened h

  unfoldable pub files_closed : History → ℕ
  files_closed [] = 0
  files_closed (e ∷ h) = closed_file e + files_closed h

  unfoldable pub scp_connected : History → ℕ
  scp_connected [] = 0
  scp_connected (e ∷ h) = connected e (E h e).error + scp_connected h

  unfoldable pub scp_closed : History → ℕ
  scp_closed [] = 0
  scp_closed (e ∷ h) = closed_scp e + scp_closed h

  -- As many files are closed as are opened, and as many clients at least as are connected.
  pub record IsTidy (h : History) : Type 0 where
    pub files : files_opened h ≡ files_closed h
    pub clients : scp_connected h ≤ scp_closed h

  -- If as many files were closed as opened before `ReceiveFile`, and as many SCP clients at least
  -- closed as connected, then the same holds behind it, on every path.
  pub receive_file-IsTidy :
      (mc : MachineConfig) (src dst : Text) (h : History)
      → IsTidy h
      → IsTidy (receive_file E mc src dst h).1
  unfolding receive_file scp_connect finally files_opened files_closed scp_connected scp_closed
  receive_file-IsTidy mc src dst h tidy =
      let files = tidy.files in
      let clients = tidy.clients in record { files = ground arith; clients = ground arith }

  -- If as many files were closed as opened before `SendFile`, and as many SCP clients at least closed
  -- as connected, then the same holds behind it, on every path.
  pub send_file-IsTidy :
      (mc : MachineConfig) (src dst permission : Text) (h : History)
      → IsTidy h
      → IsTidy (send_file E mc src dst permission h).1
  unfolding send_file scp_connect finally files_opened files_closed scp_connected scp_closed
  send_file-IsTidy mc src dst permission h tidy =
      let files = tidy.files in
      let clients = tidy.clients in record { files = ground arith; clients = ground arith }
