-- ===== src/Machine/Docker.antt =====
-- pkg/machine/docker.go. A log line in `Create` and `Clean` is left out.
use peg.Base.{◌≡◌, Bool, false, Option, none, some, ◌++◌, arith, if◌then◌else◌}
use peg.Text.{Text, lit, is_empty, contains, join}
use peg.World.{
  M, ⊤, Env, Event, Reply, Error, message, wrap, History, ok, err, ◌▷◌, ◌>>=◌, ◌>>◌, pure, fail,
  call, return_if,
}
use peg.Machine.Kind.{Docker}
use peg.Machine.Qemu.Create.{Context}

abbrev pub where_is_docker : Docker → Text
where_is_docker q =
    if is_empty q.machine_config.process then lit "/usr/bin/docker" else q.machine_config.process

abbrev pub run_command : Docker → Text
run_command q =
    let m = q.machine_config in
    where_is_docker q
    ++ (lit " run "
        ++ (join m.args (lit " ")
            ++ (lit " --entrypoint /bin/sh -d -t --name " ++ (m.id ++ (lit " " ++ m.image)))))

-- The binary with a subcommand and one operand.
abbrev pub docker_command : Docker → Text → Text → Text
docker_command q verb operand = where_is_docker q ++ (lit " " ++ (verb ++ (lit " " ++ operand)))

abbrev pub exec_command : Docker → Text → Text
exec_command q cmd =
    where_is_docker q
    ++ (lit " exec " ++ (q.machine_config.id ++ (lit " /bin/sh -c '" ++ (cmd ++ lit "'"))))

-- `fmt.Errorf("… %w - %s", err, out)`
abbrev with_output : Text → Text → Error → Error
with_output before out e = wrap before e (lit " - " ++ out)

module _ (E : Env) where
  abbrev sh : Text → M Reply
  sh cmd = call E (Event.exec cmd)

  unfoldable pub create : Docker → Context → M Context
  create q ctx = do
    let cmd = run_command q
    r ← sh cmd
    return_if
        (λ e.
          wrap (lit "failed creating container: ") e
            (lit " - cmd: " ++ (cmd ++ (lit ", out: " ++ r.text))))
        r.error
    pure ctx

  unfoldable pub screenshot : Docker → M Text
  screenshot q = fail (message (lit "Screenshot is not implemented in docker machine"))

  unfoldable pub stop : Docker → M ⊤
  stop q = do
    r ← sh (docker_command q (lit "stop") q.machine_config.id)
    return_if (with_output (lit "failed stopping container: ") r.text) r.error

  -- That the image cannot be deleted is only logged.
  unfoldable pub clean : Docker → M ⊤
  clean q = do
    r ← sh (docker_command q (lit "rm") q.machine_config.id)
    return_if (with_output (lit "failed deleting container: ") r.text) r.error
    sh (docker_command q (lit "rmi") q.machine_config.image)
    pure tt

  unfoldable pub alive : Docker → M Bool
  alive q = do
    r ←
        sh (
          docker_command q (lit "container inspect -f '{{.State.Running}}'") q.machine_config.image)
    elim r.error [ none ↦ pure (contains r.text (lit "true")) | some e ↦ pure false ]

  unfoldable pub create_disk : Docker → Text → Text → M ⊤
  create_disk q diskname size = pure tt

  -- The output and the error of the shell, both.
  unfoldable pub command : Docker → Text → M (Text × Option Error)
  command q cmd = do r ← sh (exec_command q cmd); pure (r.text, r.error)

  unfoldable pub detach_cd : Docker → M ⊤
  detach_cd q = pure tt

  unfoldable pub receive_file : Docker → Text → Text → M ⊤
  receive_file q src dst = do
    r ← sh (
        docker_command q (lit "cp") (q.machine_config.id ++ (lit ":" ++ (src ++ (lit " " ++ dst)))))
    return_if (with_output (lit "failed receiving file from container: ") r.text) r.error

  unfoldable pub send_file : Docker → Text → Text → Text → M ⊤
  send_file q src dst permissions = do
    r ← sh (
        docker_command q (lit "cp") (src ++ (lit " " ++ (q.machine_config.id ++ (lit ":" ++ dst)))))
    return_if (with_output (lit "failed receiving file from container: ") r.text) r.error

  -- Two Docker machines of one image and one binary, whatever their ids: `Alive` makes the same call
  -- for both, and gives the same answer.
  pub alive-image :
      (p q : Docker) (h : History)
      → p.machine_config.image ≡ q.machine_config.image
      → p.machine_config.process ≡ q.machine_config.process
      → alive p h ≡ alive q h
  unfolding alive
  alive-image p q h i b = cc

  -- `Clean` fails exactly when the container cannot be removed, and then leaves the image alone;
  -- otherwise it tries to delete the image once, and ignores the outcome.
  pub clean-eq :
      (q : Docker) (h : History)
      → let rm = Event.exec (docker_command q (lit "rm") q.machine_config.id) in
        let rmi = Event.exec (docker_command q (lit "rmi") q.machine_config.image) in
        clean q h ≡ elim (E h rm).error [
          | none ↦ (ok tt, h ▷ rm ▷ rmi)
          | some e ↦ (err (with_output (lit "failed deleting container: ") (E h rm).text e), h ▷ rm)
        ]
  unfolding clean
  clean-eq q h = ground arith
