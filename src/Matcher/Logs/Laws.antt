-- ===== src/Matcher/Logs/Laws.antt =====
-- The gathering of logs as a plan of steps, none of which ends it.
use peg.Base.{◌≡◌, ◌≢◌, refl, ap, List, [], ◌∷◌, ◌++◌, arith}
use peg.Text.{Text, lit}
use peg.World.{M, ⊤, Env, Error, History, Exit, ok, err, panic, ◌>>◌}
use peg.Machine.Kind.{Machine}
use peg.Matcher.Helpers.{each}
use peg.Matcher.Logs.{machine_gather_log, machine_gather_all_logs, sudo, service_log, journalctl}

-- A command on the machine, or the copy of a file from it.
pub data LogStep : Type 0 where
  shell fetch : Text → LogStep

abbrev pub service_plan : List Text → List LogStep
service_plan [] = []
service_plan (ser ∷ services) =
    shell (journalctl ser) ∷ fetch (service_log ser) ∷ service_plan services

abbrev pub file_plan : List Text → List LogStep
file_plan [] = []
file_plan (path ∷ paths) = fetch path ∷ file_plan paths

abbrev pub system_plan : List LogStep
system_plan =
    shell (lit "dmesg > /run/dmesg")
    ∷ fetch (lit "/run/dmesg")
    ∷ shell (lit "journalctl -o short-iso > /run/journal.log")
    ∷ fetch (lit "/run/journal.log")
    ∷ shell (lit "uname -a > /run/uname.log")
    ∷ fetch (lit "/run/uname.log")
    ∷ shell (lit "lsblk -a >> /run/disks.log")
    ∷ shell (lit "blkid >> /run/disks.log")
    ∷ fetch (lit "/run/disks.log")
    ∷ fetch (lit "/etc/passwd")
    ∷ fetch (lit "/etc/os-release")
    ∷ []

module _ (E : Env) (m : Machine) where
  abbrev pub run_log_step : LogStep → M ⊤
  run_log_step (shell cmd) = sudo E m cmd
  run_log_step (fetch path) = machine_gather_log E m path

  -- The steps in order: one that fails does not end them, one that panics does.
  unfoldable pub run_log_steps : List LogStep → M ⊤
  run_log_steps [] h = (ok tt, h)
  run_log_steps (s ∷ steps) h =
      let (r, h') = run_log_step s h in elim r [ panic ↦ (panic, h') | _ ↦ run_log_steps steps h' ]

  step-never : (s : LogStep) (h : History) {e : Error} → (run_log_step s h).0 ≢ err e
  unfolding machine_gather_log
  step-never (shell cmd) h p = absurd (ground arith)
  step-never (fetch path) h p = absurd (ground arith)

  run_log_steps-cons :
      (s : LogStep) (steps : List LogStep) (h : History)
      → run_log_steps (s ∷ steps) h ≡ (run_log_step s >> run_log_steps steps) h
  unfolding run_log_steps
  run_log_steps-cons s steps h = by_exit (run_log_step s h) refl
    where
      by_exit :
          (r : Exit ⊤ × History)
          → run_log_step s h ≡ r
          → run_log_steps (s ∷ steps) h ≡ (run_log_step s >> run_log_steps steps) h
      by_exit (ok _, t) p = ground arith
      by_exit (err e, t) p = absurd (step-never s h (ap (λ r. r.0) p))
      by_exit (panic, t) p = ground arith

  run_log_steps-append :
      (xs ys : List LogStep) (h : History)
      → run_log_steps (xs ++ ys) h ≡ (run_log_steps xs >> run_log_steps ys) h
  unfolding run_log_steps
  run_log_steps-append [] ys h = refl
  run_log_steps-append (s ∷ xs) ys h =
      ground (arith, run_log_steps-append xs ys (run_log_step s h).1)

  service_plan-eq :
      (services : List Text) (h : History)
      → each
          (λ ser. do sudo E m (journalctl ser); machine_gather_log E m (service_log ser))
          services
          h
        ≡ run_log_steps (service_plan services) h
  unfolding run_log_steps
  service_plan-eq [] h = refl
  service_plan-eq (ser ∷ services) h =
      let t = (sudo E m (journalctl ser) h).1 in
      let u = (machine_gather_log E m (service_log ser) t).1 in
      ground (
        arith,
        run_log_steps-cons (shell (journalctl ser))
            (fetch (service_log ser) ∷ service_plan services) h,
        run_log_steps-cons (fetch (service_log ser)) (service_plan services) t,
        service_plan-eq services u,
      )

  file_plan-eq :
      (paths : List Text) (h : History)
      → each (machine_gather_log E m) paths h ≡ run_log_steps (file_plan paths) h
  unfolding run_log_steps
  file_plan-eq [] h = refl
  file_plan-eq (path ∷ paths) h = ground (
    arith,
    run_log_steps-cons (fetch path) (file_plan paths) h,
    file_plan-eq paths (machine_gather_log E m path h).1,
  )

  -- `k` runs the steps of a plan, and so does it behind one step more.
  before_steps :
      (s : LogStep) (steps : List LogStep) {k : M ⊤}
      → ((t : History) → k t ≡ run_log_steps steps t)
      → (h : History) → (run_log_step s >> k) h ≡ run_log_steps (s ∷ steps) h
  before_steps s steps {k} rest h =
      ground (arith, run_log_steps-cons s steps h, rest (run_log_step s h).1)

  last_step : (s : LogStep) (h : History) → run_log_step s h ≡ run_log_steps (s ∷ []) h
  unfolding run_log_steps
  last_step s h = ground (arith, run_log_steps-cons s [] h)

  -- Gathering is the plan: for each service a command and its log, then the given files, then the
  -- logs of the system, in this order. Each step is tried whatever the steps before it returned; only
  -- a panic ends the plan.
  pub machine_gather_all_logs-eq :
      (services log_files : List Text) (h : History)
      → machine_gather_all_logs E m services log_files h
        ≡ run_log_steps (service_plan services ++ (file_plan log_files ++ system_plan)) h
  unfolding machine_gather_all_logs
  machine_gather_all_logs-eq services log_files h =
      let t = (run_log_steps (service_plan services) h).1 in
      let u = (run_log_steps (file_plan log_files) t).1 in
      let system = before_steps (shell (lit "dmesg > /run/dmesg")) _ (
        before_steps (fetch (lit "/run/dmesg")) _ (
          before_steps (shell (lit "journalctl -o short-iso > /run/journal.log")) _ (
            before_steps (fetch (lit "/run/journal.log")) _ (
              before_steps (shell (lit "uname -a > /run/uname.log")) _ (
                before_steps (fetch (lit "/run/uname.log")) _ (
                  before_steps (shell (lit "lsblk -a >> /run/disks.log")) _ (
                    before_steps (shell (lit "blkid >> /run/disks.log")) _ (
                      before_steps (fetch (lit "/run/disks.log")) _ (
                        before_steps (fetch (lit "/etc/passwd")) _
                          (last_step (fetch (lit "/etc/os-release")))))))))))) in
      ground (
        arith,
        service_plan-eq services h,
        file_plan-eq log_files t,
        system u,
        run_log_steps-append (service_plan services) (file_plan log_files ++ system_plan) h,
        run_log_steps-append (file_plan log_files) system_plan t,
      )
