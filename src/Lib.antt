-- ===== src/Lib.antt =====
-- Verification of peg, a runner of end-to-end tests in virtual machines.
--
-- A specfile (YAML) names the assertions of an outline and, perhaps, a machine.
-- The command line (main.go) turns its flags into options of the runner and of
-- the machine. The runner (peg/runner.go) reads the specfile, prepares a machine
-- of one of three engines, and declares one Ginkgo spec for every assertion. A
-- spec runs its command on the machine by SSH and checks what it prints. A signal
-- runs the cleanups that the machine and the runner registered.
--
-- Files, and the code that each is about:
--   Base, Text         lists and tests that the modules share; byte strings, the
--                      decimals and formats of Go, path/filepath
--   World              calls to the outside: the environment answers each event
--                      from the history of events, and a program is a function
--                      from a history to an exit (ok, err or panic) and a history
--   Config             pkg/machine/types/config.go: MachineConfig, the options
--                      (Config/Options) and Apply
--   Machine            pkg/machine: machine.go (Machine/Prepare, Machine/New,
--                      Machine/Random, and the goroutine of monitor in
--                      Machine/Watch), qemu.go (Machine/Qemu), docker.go
--                      (Machine/Docker), vbox.go (Machine/Vbox), the interface
--                      of types/machine.go (Machine/Kind), and
--                      internal/utils/download.go (Machine/Download)
--   Controller         pkg/controller: SSH sessions, and copies by SCP
--   Matcher            matcher/helpers.go: the global machine, Sudo, HasFile,
--                      HasDir, EventuallyConnects (its laws in
--                      Matcher/Polling), Reboot, the gathering of logs
--                      (Matcher/Logs), and the VM type (Matcher/Vm)
--   Signals            internal/signals/signals.go
--   Suite              peg: config.go (Suite/Spec, Suite/Show), generator.go
--                      (Suite/Assertion, Suite/Generate, Suite/Failer),
--                      options.go (Suite/Options), runner.go (Suite/Run)
--   Cli                main.go, from the parsed flags on
--   Tests              runs on small concrete environments
--
-- How state corresponds. A pointer receiver that a method changes is returned by
-- it next to its result. The files, processes, sockets and terminals that the
-- program shares with the operating system are not a state of the model: a call
-- to them is an event of the history, newest first, and its answer is any
-- function of the history before it. So a theorem holds whatever files and
-- processes do. The registered cleanups are read off the history, and the machine
-- of the matchers is an argument.
--
-- Parameters, for code that is not in the repository: gomega's matchers, Ginkgo's
-- run of the declared specs, the order in which Go walks a map, the YAML decoders,
-- net/url, time.ParseDuration. SSH clients, process managers, sockets, freeport and
-- downloads answer as events.
--
-- Bounds and fuel. Text is a list of byte codes. A decimal is printed with as much
-- fuel as the number plus one, which is more than it has digits. A loop that
-- polls (the monitor, EventuallyConnects, the reader of the QEMU monitor) is a
-- recursion on the number of wake-ups, attempts or reads. Durations, counts and
-- ports are natural numbers: negative ones are not modelled.
--
-- Not modelled: the lines that are logged or shown by a spinner, the %+v dump of a
-- configuration in two error texts, letters beyond ASCII in the lower case of an
-- engine's name, more than two goroutines at a failer, the wrappers of helpers.go
-- that only pass the global machine on, the declaration of the flags in main.go,
-- and the test suites, which only start Ginkgo.
pub mod Base
pub mod Text
pub mod World
pub mod Config
pub mod Machine
pub mod Controller
pub mod Matcher
pub mod Signals
pub mod Suite
pub mod Cli
mod Tests
