-- ===== src/Matcher/Logs.antt =====
-- `machineGatherLog` and `machineGatherAllLogs`: logs of the machine, copied to the directory `logs`.
pub mod Laws
use peg.Base.{Option, none, some, List, ◌++◌}
use peg.Text.{Text, lit}
use peg.Text.FilePath.{base}
use peg.World.{M, ⊤, Env, Event, Error, ◌>>=◌, ◌>>◌, pure, call, try, return_if, same, finally}
use peg.Machine.Kind.{Machine, config}
use peg.Controller.{do_call, scp_connect, with_ssh}
use peg.Matcher.Helpers.{each, ignore_error, machine_sudo}

abbrev pub local_log : Text → Text
local_log path = lit "logs/" ++ base path

abbrev pub service_log : Text → Text
service_log ser = lit "/run/" ++ (ser ++ lit ".log")

abbrev pub journalctl : Text → Text
journalctl ser = lit "journalctl -u " ++ (ser ++ (lit " -o short-iso >> " ++ service_log ser))

module _ (E : Env) where
  -- Behind `NewSCPClient`. That the local file cannot be created shows when it is written.
  unfoldable pub copy_log : Machine → Text → M ⊤
  copy_log m path = with_ssh (config m) λ s. finally (do_call E Event.close_scp) (do
    scp_connect E s
    do_call E (Event.mkdir (lit "logs") 493)
    do_call E (Event.create (local_log path))
    finally (do do_call E Event.close_file; do_call E Event.close_scp)
        (do try E (Event.scp_from_remote path); do_call E (Event.chmod (local_log path) 438)))

  -- An error ends the function, which prints it.
  unfoldable pub machine_gather_log : Machine → Text → M ⊤
  machine_gather_log m path =
      ignore_error (do
        (out, e) ← machine_sudo E m (lit "chmod 777 " ++ path)
        return_if same e
        copy_log m path)

  -- A command of `machineGatherAllLogs`, whose error is printed.
  abbrev pub sudo : Machine → Text → M ⊤
  sudo m cmd = ignore_error (machine_sudo E m cmd)

  unfoldable pub machine_gather_all_logs : Machine → List Text → List Text → M ⊤
  machine_gather_all_logs m services log_files = do
    each (λ ser. do sudo m (journalctl ser); machine_gather_log m (service_log ser)) services
    each (machine_gather_log m) log_files
    sudo m (lit "dmesg > /run/dmesg")
    machine_gather_log m (lit "/run/dmesg")
    sudo m (lit "journalctl -o short-iso > /run/journal.log")
    machine_gather_log m (lit "/run/journal.log")
    sudo m (lit "uname -a > /run/uname.log")
    machine_gather_log m (lit "/run/uname.log")
    sudo m (lit "lsblk -a >> /run/disks.log")
    sudo m (lit "blkid >> /run/disks.log")
    machine_gather_log m (lit "/run/disks.log")
    machine_gather_log m (lit "/etc/passwd")
    machine_gather_log m (lit "/etc/os-release")
