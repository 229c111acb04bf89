-- ===== src/Tests/Matcher.antt =====
-- The matchers, the gathering of logs, and the files that are copied.
use peg.Base.{◌≡◌, ◌↔◌, ◌<◌, ◌⊎◌, ℕ, refl, [], ◌∷◌, ◌++◌, arith}
use peg.Text.{Text, lit, text_eq}
use peg.World.{⊤, Event, Env, Exit, History, ok, ◌▷◌}
use peg.Machine.Kind.{Docker}
use peg.Machine.Docker as Docker
use peg.Machine.Docker.{alive-image}
use peg.Matcher.Gomega.{documented}
use peg.Matcher.Helpers.{line, poll_ping, machine_eventually_connects, machine_sudo}
use peg.Matcher.Polling.{IsPinged, machine_eventually_connects-eq-ok}
use peg.Matcher.Sudo.{IsCrashed, machine_sudo-closes}
use peg.Matcher.Logs.{machine_gather_all_logs}
use peg.Matcher.Logs.Laws.{
  run_log_steps, service_plan, file_plan, system_plan, machine_gather_all_logs-eq,
}
use peg.Controller.{receive_file, send_file, clients_made, clients_closed}
use peg.Controller.Files.{
  IsTidy, receive_file-IsTidy, send_file-IsTidy, files_opened, files_closed, scp_connected,
  scp_closed,
}
use peg.Tests.World.{world, machine, alpine, says}

-- A world in which the machine answers from the second command on, and two polls are made.
abbrev pinged_world : Env
pinged_world h (Event.exec cmd) = elim h [
  | [] ↦ says []
  | e ∷ [] ↦ says []
  | _ ↦ says (line (lit "ping"))
]
pinged_world h (Event.start_polling seconds) = record (says []) { number = 2 }
pinged_world h e = world h e

abbrev connecting : Exit ⊤ × History
connecting = machine_eventually_connects pinged_world documented alpine (10 ∷ []) []

connecting_runs : connecting.0 ≡ ok tt
unfolding machine_eventually_connects poll_ping Docker.command lit text_eq
connecting_runs = refl

machine_eventually_connects-eq-ok_example : (connecting ≡ (ok tt, connecting.1)) ↔ (
    (k : ℕ) × (k < 2)
    × IsPinged pinged_world documented alpine k ([] ▷ Event.start_polling 10) connecting.1)
machine_eventually_connects-eq-ok_example =
    machine_eventually_connects-eq-ok pinged_world documented alpine (10 ∷ []) [] connecting.1

machine_sudo-closes_example :
    let t = (machine_sudo world alpine (lit "reboot") []).1 in
    (clients_made t ≡ clients_closed t) ⊎ IsCrashed world (lit "reboot") t
unfolding clients_made clients_closed
machine_sudo-closes_example = machine_sudo-closes world alpine (lit "reboot") [] refl

machine_gather_all_logs-eq_example :
    machine_gather_all_logs world alpine (lit "k3s" ∷ []) (lit "/var/log/a.log" ∷ []) []
    ≡ run_log_steps world alpine
        (service_plan (lit "k3s" ∷ []) ++ (file_plan (lit "/var/log/a.log" ∷ []) ++ system_plan))
        []
machine_gather_all_logs-eq_example =
    machine_gather_all_logs-eq world alpine (lit "k3s" ∷ []) (lit "/var/log/a.log" ∷ []) []

empty-IsTidy : IsTidy world []
unfolding files_opened files_closed scp_connected scp_closed
empty-IsTidy = record { files = refl; clients = omega arith }

receive_file-IsTidy_example :
    IsTidy world (receive_file world machine (lit "/etc/a") (lit "/tmp/a") []).1
receive_file-IsTidy_example =
    receive_file-IsTidy world machine (lit "/etc/a") (lit "/tmp/a") [] empty-IsTidy

send_file-IsTidy_example :
    IsTidy world (send_file world machine (lit "/tmp/a") (lit "/etc/a") (lit "0755") []).1
send_file-IsTidy_example =
    send_file-IsTidy world machine (lit "/tmp/a") (lit "/etc/a") (lit "0755") [] empty-IsTidy

abbrev container : Text → Docker
container id = record { machine_config = record machine { id = id; image = lit "alpine" } }

alive-image_example :
    Docker.alive world (container (lit "a")) [] ≡ Docker.alive world (container (lit "b")) []
alive-image_example = alive-image world (container (lit "a")) (container (lit "b")) [] refl refl
