-- ===== src/Config/Laws.antt =====
-- What `Apply` does with the errors of its options.
use peg.Base.{◌≡◌, ◌↔◌, refl, ap, ◌∙◌, Option, none, some, List, [], ◌∷◌, ◌++◌, arith}
use peg.World.{Error, History, Exit, ok, err, panic}
use peg.Config.{MachineConfig, MachineOption, apply}

-- An option that returns nil hands its configuration to the rest.
pub apply-cons :
    (o : MachineOption) (opts : List MachineOption) (mc : MachineConfig) (h : History)
    {mc' : MachineConfig} {h' : History}
    → o mc h ≡ (ok (mc', none), h')
    → apply (o ∷ opts) mc h ≡ apply opts mc' h'
unfolding apply
apply-cons o opts mc h e = ground arith

-- All the options returned nil, and took the first configuration and history to the second.
pub data RunsThrough
    : List MachineOption → MachineConfig → History → MachineConfig → History → Type 0 where
  no_option : {mc : MachineConfig} {h : History} → RunsThrough [] mc h mc h
  option :
      {o : MachineOption} {opts : List MachineOption} {mc mc₁ mc₂ : MachineConfig}
      {h h₁ h₂ : History}
      → o mc h ≡ (ok (mc₁, none), h₁)
      → RunsThrough opts mc₁ h₁ mc₂ h₂
      → RunsThrough (o ∷ opts) mc h mc₂ h₂

-- One of the options returned an error, those before it returned nil, and those behind it were not
-- run: the configuration and the history are as that one left them.
pub record FailsAt (opts : List MachineOption) (mc : MachineConfig) (h : History)
    (mc' : MachineConfig) (e : Error) (t : History) : Type 0 where
  pub before : List MachineOption
  pub failing : MachineOption
  pub behind : List MachineOption
  pub reached : MachineConfig
  pub at_failing : History
  pub parts : opts ≡ before ++ (failing ∷ behind)
  pub through : RunsThrough before mc h reached at_failing
  pub fails : failing reached at_failing ≡ (ok (mc', some e), t)

apply-before :
    {before : List MachineOption} {mc mc' : MachineConfig} {h h' : History}
    (rest : List MachineOption)
    → RunsThrough before mc h mc' h'
    → apply (before ++ rest) mc h ≡ apply rest mc' h'
apply-before rest no_option = refl
apply-before rest (option {o} {opts} {mc} {mc₁} {mc₂} {h} {h₁} {h₂} p through) =
    apply-cons o (opts ++ rest) mc h p ∙ apply-before rest through

apply-FailsAt :
    (opts : List MachineOption) (mc : MachineConfig) (h : History) {mc' : MachineConfig} {e : Error}
    {t : History}
    → apply opts mc h ≡ (ok (mc', some e), t)
    → FailsAt opts mc h mc' e t
unfolding apply
apply-FailsAt [] mc h p = absurd (ground arith)
apply-FailsAt (o ∷ opts) mc h {mc'} {e} {t} p =
    by_exit (o mc h) refl (λ mc₁ h₁. apply-FailsAt opts mc₁ h₁)
  where
    by_exit :
        (r : Exit (MachineConfig × Option Error) × History)
        → o mc h ≡ r
        → ((mc₁ : MachineConfig) (h₁ : History)
            → apply opts mc₁ h₁ ≡ (ok (mc', some e), t)
            → FailsAt opts mc₁ h₁ mc' e t)
        → FailsAt (o ∷ opts) mc h mc' e t
    by_exit (ok (mc₁, none), h₁) q rest =
        let r = rest mc₁ h₁ (ground arith) in
        record {
          before = o ∷ r.before;
          failing = r.failing;
          behind = r.behind;
          reached = r.reached;
          at_failing = r.at_failing;
          parts = ap (λ (l : List MachineOption). o ∷ l) r.parts;
          through = option q r.through;
          fails = r.fails;
        }
    by_exit (ok (mc₁, some x), h₁) q rest = record {
      before = [];
      failing = o;
      behind = opts;
      reached = mc;
      at_failing = h;
      parts = refl;
      through = no_option;
      fails = ground arith;
    }
    by_exit (err x, h₁) q rest = absurd (ground arith)
    by_exit (panic, h₁) q rest = absurd (ground arith)

-- `Apply` returns an error exactly if one of the options returned that error where those before it
-- had returned nil; those behind it are not run, and the configuration is as that option left it.
pub apply-eq-error :
    (opts : List MachineOption) (mc mc' : MachineConfig) (h t : History) (e : Error)
    → (apply opts mc h ≡ (ok (mc', some e), t)) ↔ FailsAt opts mc h mc' e t
unfolding apply
apply-eq-error opts mc mc' h t e = (
  apply-FailsAt opts mc h,
  λ f.
      ap (λ (l : List MachineOption). apply l mc h) f.parts
      ∙ (apply-before (f.failing ∷ f.behind) f.through ∙ fails_first f.failing f.behind f.fails),
)
  where
    fails_first :
        (o : MachineOption) (rest : List MachineOption) {m : MachineConfig} {k : History}
        → o m k ≡ (ok (mc', some e), t)
        → apply (o ∷ rest) m k ≡ (ok (mc', some e), t)
    fails_first o rest p = ground arith
