-- ===== src/Machine/Prepare/Laws.antt =====
-- What holds of a configuration that `prepare` returns.
use peg.Base.{◌≡◌, refl, false, Option, none, some, arith, Bool-cases, inl, inr}
use peg.Text.{lit, is_empty}
use peg.Text.Laws.{decimal-ne-nil}
use peg.World.{Env, Event, panic, History}
use peg.World.Ensures.{Returns, NoPanic}
use peg.Config.{Ssh, MachineConfig}
use peg.Machine.Random.{rand_string_runes, pick_letters}
use peg.Machine.Download.{UrlParser}
use peg.Machine.Prepare.{
  give_id, give_state_dir, give_ssh_port, fetch_iso, fetch_data_source, prepare,
}

abbrev HasPort : Option Ssh → Type 0
HasPort none = ⊥
HasPort (some s) = is_empty s.port ≡ false

-- What `prepare` promises of its result: an id, a state directory, and an SSH port.
abbrev pub IsPrepared : MachineConfig → Type 0
IsPrepared mc = (is_empty mc.id ≡ false) × (is_empty mc.state_dir ≡ false) × HasPort mc.ssh

abbrev HasId : MachineConfig → Type 0
HasId mc = is_empty mc.id ≡ false

abbrev HasDir : MachineConfig → Type 0
HasDir mc = HasId mc × (is_empty mc.state_dir ≡ false)

module _ (E : Env) where
  -- `os.MkdirTemp` that returns no error names a directory.
  abbrev pub NamesTempDirs : Type 0
  NamesTempDirs =
      (h : History)
      → (E h (Event.make_temp_dir (lit "peg"))).error ≡ none
      → is_empty (E h (Event.make_temp_dir (lit "peg"))).text ≡ false

  give_id-HasId : (mc : MachineConfig) (h : History) → Returns HasId (give_id E mc h)
  unfolding give_id rand_string_runes pick_letters
  give_id-HasId mc h = elim (Bool-cases (is_empty mc.id)) [ inl e ↦ rw e refl | inr e ↦ rw e e ]

  give_state_dir-HasDir :
      NamesTempDirs
      → (mc : MachineConfig) (h : History) → HasId mc
      → Returns HasDir (give_state_dir E mc h)
  unfolding give_state_dir
  give_state_dir-HasDir names mc h p = ground (arith, names h)

  give_ssh_port-IsPrepared :
      (mc : MachineConfig) (h : History)
      → HasDir mc
      → Returns IsPrepared (give_ssh_port E mc.ssh mc h)
  unfolding give_ssh_port
  give_ssh_port-IsPrepared mc h p = ground (arith, decimal-ne-nil (E h Event.free_port).number)

  module _ (U : UrlParser) where
    fetch_iso-IsPrepared :
        (mc : MachineConfig) (h : History) → IsPrepared mc → Returns IsPrepared (fetch_iso E U mc h)
    unfolding fetch_iso
    fetch_iso-IsPrepared mc h p = ground arith

    fetch_data_source-IsPrepared :
        (mc : MachineConfig) (h : History)
        → IsPrepared mc
        → Returns IsPrepared (fetch_data_source E U mc h)
    unfolding fetch_data_source
    fetch_data_source-IsPrepared mc h p = ground arith

    -- Given that temporary directories have names: if `prepare` returns normally, the configuration
    -- has an id, a state directory and an SSH port, none of them empty.
    pub prepare-IsPrepared :
        NamesTempDirs → (mc : MachineConfig) (h : History) → Returns IsPrepared (prepare E U mc h)
    unfolding prepare
    prepare-IsPrepared names mc h = grind (
      arith,
      give_id-HasId,
      give_state_dir-HasDir names,
      give_ssh_port-IsPrepared,
      fetch_iso-IsPrepared,
      fetch_data_source-IsPrepared,
    )

    give_id-ssh :
        (mc : MachineConfig) (h : History) → Returns (λ mc'. mc'.ssh ≡ mc.ssh) (give_id E mc h)
    unfolding give_id rand_string_runes
    give_id-ssh mc h = ground arith

    give_state_dir-ssh :
        (mc : MachineConfig) (h : History)
        → Returns (λ mc'. mc'.ssh ≡ mc.ssh) (give_state_dir E mc h)
    unfolding give_state_dir
    give_state_dir-ssh mc h = ground arith

    -- `give_id` and `give_state_dir` return, for every configuration.
    give_id-NoPanic : (mc : MachineConfig) (h : History) → NoPanic (give_id E mc h)
    unfolding give_id rand_string_runes
    give_id-NoPanic mc h = ground arith

    give_state_dir-NoPanic : (mc : MachineConfig) (h : History) → NoPanic (give_state_dir E mc h)
    unfolding give_state_dir
    give_state_dir-NoPanic mc h = ground arith

    give_ssh_port-panics :
        (mc : MachineConfig) (h : History)
        → mc.ssh ≡ none
        → give_ssh_port E mc.ssh mc h ≡ (panic, h)
    unfolding give_ssh_port
    give_ssh_port-panics mc h e = rw e refl

    -- Without a value behind the SSH pointer, `prepare` never returns normally.
    pub prepare-nil_ssh :
        (mc : MachineConfig) (h : History) → mc.ssh ≡ none → Returns (λ _. ⊥) (prepare E U mc h)
    unfolding prepare
    prepare-nil_ssh mc h e = grind (arith, give_id-ssh, give_state_dir-ssh, give_ssh_port-panics)
