-- ===== src/Matcher/Sudo.antt =====
-- The clients that `machineSudo` opens.
use peg.Base.{◌≡◌, ◌≢◌, ◌⊎◌, none, [], ◌∷◌, arith}
use peg.Text.{Text}
use peg.World.{Env, Event, History, finally}
use peg.Machine.Kind.{Machine}
use peg.Controller.{new_client, ssh_dial_timeout, clients_made, clients_closed}
use peg.Matcher.Helpers.{write_stdin, machine_sudo}

-- The program has ended in the goroutine that writes the command, since the write failed.
abbrev pub IsCrashed : Env → Text → History → Type 0
IsCrashed E c [] = ⊥
IsCrashed E c (e ∷ t) = (e ≡ Event.write_stdin c) × ((E t e).error ≢ none)

-- As many clients were closed as made before `machineSudo`: then the same holds behind it, on each
-- path, a panic on a failed copy of the output included; but for the path on which the write of the
-- command fails, which ends the program there.
pub machine_sudo-closes :
    (E : Env) (m : Machine) (c : Text) (h : History)
    → clients_made h ≡ clients_closed h
    → let t = (machine_sudo E m c h).1 in (clients_made t ≡ clients_closed t) ⊎ IsCrashed E c t
unfolding machine_sudo write_stdin new_client ssh_dial_timeout finally clients_made clients_closed
machine_sudo-closes E m c h e = ground arith
