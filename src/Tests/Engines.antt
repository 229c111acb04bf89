-- ===== src/Tests/Engines.antt =====
-- The three engines, the monitor, SSH, virtual machines and signals.
use peg.Base.{map, ◌≡◌, refl, none, some, [], ◌∷◌, ◌++◌}
use peg.Text.{lit, decimal}
use peg.World.{History, Event, ok, ◌▷◌, ◌>>◌, pure, remove_state_dir, stop_and_clean}
use peg.World.Ensures.{Returns, ReturnsAt}
use peg.Machine.Kind.{qemu_machine}
use peg.Machine.Qemu.Drives.{gen_drives, disks_from, cdroms, rendered_all, gen_drives-eq}
use peg.Machine.Qemu.Create as Qemu
use peg.Machine.Qemu.Create.{given}
use peg.Machine.Qemu.Create.Laws.{IsLaunched, create-IsLaunched}
use peg.Machine.Qemu.Arguments.{monitor_sock_file}
use peg.Machine.Qemu.Monitor as Socket
use peg.Machine.Qemu.Monitor.{IsClosed, screenshot-IsClosed, detach_cd-IsClosed}
use peg.Machine.Watch.{tick, done, finished, monitor, IsWatched, monitor-IsWatched, monitor-ends}
use peg.Machine.Vbox as Vbox
use peg.Machine.Vbox.Laws.{
  command, run_plan, create_plan, first_plan, attach_plan, clashing_plan, create-eq-run_plan,
  create-port_clash,
}
use peg.Controller.{ssh_command, ssh_command-closes, clients_made, clients_closed}
use peg.Matcher.Dispatch as Dispatch
use peg.Matcher.Vm.{new_vm, destroy, destroy-stops_and_cleans}
use peg.Signals.{on_stop_signal, cleanup_fn}
use peg.Signals.Laws.{cleaned_by_all, on_stop_signal-eq, on_stop_signal-removes_first}
use peg.Tests.World.{world, machine, ssh, qemu_vm, vbox_vm, alpine}

gen_drives-eq_example :
    gen_drives (lit "a.img" ∷ lit "b.img" ∷ []) machine
    ≡ rendered_all (disks_from 0 (lit "a.img" ∷ lit "b.img" ∷ []))
      ++ rendered_all (cdroms 2 machine.iso machine.data_source)
gen_drives-eq_example = gen_drives-eq (lit "a.img" ∷ lit "b.img" ∷ []) machine

create-IsLaunched_example :
    ReturnsAt (IsLaunched world qemu_vm (given 0) ssh) (Qemu.create world qemu_vm (given 0) [])
create-IsLaunched_example = create-IsLaunched world qemu_vm (given 0) ssh [] refl

screenshot-IsClosed_example :
    IsClosed world (monitor_sock_file machine) (Socket.screenshot world qemu_vm []).1
screenshot-IsClosed_example = screenshot-IsClosed world qemu_vm []

detach_cd-IsClosed_example :
    IsClosed world (monitor_sock_file machine) (Socket.detach_cd world qemu_vm []).1
detach_cd-IsClosed_example = detach_cd-IsClosed world qemu_vm []

monitor-IsWatched_example :
    ReturnsAt
      (IsWatched world (some 7) (lit "/tmp/peg1") [])
      (monitor world (some 7) (lit "/tmp/peg1") (tick ∷ []) [])
monitor-IsWatched_example = monitor-IsWatched world (some 7) (lit "/tmp/peg1") (tick ∷ []) []

monitor-ends_example :
    Returns
      (λ o. o ≡ finished)
      (monitor world (some 7) (lit "/tmp/peg1") ((tick ∷ []) ++ (done ∷ [])) [])
monitor-ends_example = monitor-ends world (some 7) (lit "/tmp/peg1") (tick ∷ []) [] []

create-eq-run_plan_example :
    Vbox.create world vbox_vm (given 0) []
    ≡ (run_plan world (create_plan ssh machine) >> pure (given 0)) []
create-eq-run_plan_example = create-eq-run_plan world vbox_vm (given 0) ssh [] refl

create-port_clash_example :
    Vbox.create world vbox_vm (given 0) []
    ≡ (run_plan world (
            first_plan ssh machine
            ++ (attach_plan machine 0 [] ++ clashing_plan machine 0 (lit "a.img") (lit "c3os.iso")))
          >> pure (given 0))
        []
unfolding lit
create-port_clash_example =
    create-port_clash world vbox_vm (given 0) ssh [] [] (lit "a.img") b'c' (lit "3os.iso") refl refl
      refl

ssh_command-closes_example :
    let t = (ssh_command world machine (lit "id") []).1 in clients_made t ≡ clients_closed t
unfolding clients_made clients_closed
ssh_command-closes_example = ssh_command-closes world machine (lit "id") [] refl

destroy-stops_and_cleans_example :
    destroy world none (new_vm alpine (lit "/tmp/peg1")) []
    ≡ (ok tt, (Dispatch.clean world alpine (Dispatch.stop world alpine ([] ▷ Event.sleep 1)).1).1)
unfolding new_vm
destroy-stops_and_cleans_example =
    destroy-stops_and_cleans world (new_vm alpine (lit "/tmp/peg1")) alpine [] refl

abbrev registered : History
registered =
    [] ▷ Event.add_cleanup (remove_state_dir (lit "/tmp/peg1")) ▷ Event.add_cleanup stop_and_clean

on_stop_signal-eq_example :
    on_stop_signal world alpine registered
    ≡ (ok tt, cleaned_by_all world alpine (cleanup_fn registered) registered ▷ Event.exit_1)
on_stop_signal-eq_example = on_stop_signal-eq world alpine registered

on_stop_signal-removes_first_example : on_stop_signal world (qemu_machine qemu_vm) registered ≡ (
  ok tt,
  registered
      ▷ Event.remove_all (lit "/tmp/peg1")
      ▷ Event.stop_process (lit "/tmp/peg1")
      ▷ Event.remove_all (lit "/tmp/peg1")
      ▷ Event.exit_1,
)
unfolding lit cleanup_fn
on_stop_signal-removes_first_example =
    on_stop_signal-removes_first world qemu_vm (lit "/tmp/peg1") registered refl refl refl

-- The commands for the machine of the tests.
create_plan_runs :
    map command (create_plan ssh machine)
    ≡ lit "VBoxManage createvm --name vm --uuid vm --register"
      ∷ lit "VBoxManage modifyvm vm --memory 2048 --cpus 2"
      ∷ lit
          "VBoxManage modifyvm vm --nic1 nat --boot1 disk --boot2 dvd --natpf1 \"guestssh,tcp,,2222,,22\""
      ∷ lit
          "VBoxManage storagectl \"vm\" --name \"sata controller\" --add sata --portcount 2 --hostiocache off"
      ∷ lit
          "VBoxManage storageattach \"vm-0\" --storagectl \"sata controller\" --port 1 --device 0 --type hdd --medium a.img"
      ∷ lit
          "VBoxManage storageattach \"vm\" --storagectl \"sata controller\" --port 1 --device 0 --type dvddrive --medium c3os.iso"
      ∷ lit "VBoxManage startvm \"vm\" --type headless"
      ∷ []
unfolding lit decimal
create_plan_runs = refl
