-- ===== src/Suite/Failer.antt =====
-- The failers of peg/generator.go. Goroutines share a `Syncfailer`; each step of one is a call of
-- its lock or an access to its flag, and `sync.Mutex` lets a goroutine lock only what is free.
pub mod Laws
use peg.Base.{◌≡◌, Bool, true, false, Option, none, some, List, [], ◌∷◌, ◌++◌}
use peg.World.{M, ⊤, Env, Event}
use peg.Controller.{do_call}

-- A step of a method: the two of the embedded mutex, the assignment to `failed`, and its read.
pub data Action : Type 0 where
  lock unlock set_failed read_failed : Action

-- `Fail`, with the deferred unlock at its end.
unfoldable pub fail : List Action
fail = lock ∷ set_failed ∷ unlock ∷ []

-- `Failed`
unfoldable pub failed : List Action
failed = lock ∷ read_failed ∷ unlock ∷ []

-- `Failer`
unfoldable pub fail_and_exit : Env → M ⊤
fail_and_exit E = do_call E Event.exit_1

pub data Goroutine : Type 0 where
  first second : Goroutine

-- The failer, who holds its lock, and what the two goroutines have left to do.
pub record Syncfailer : Type 0 where
  pub has_failed : Bool
  pub holder : Option Goroutine
  pub first_left : List Action
  pub second_left : List Action

-- What an action of a goroutine needs of the lock and the flag, and makes of them.
pub data Acts (g : Goroutine)
    : Action → Option Goroutine → Bool → Option Goroutine → Bool → Type 0 where
  locks : {b : Bool} → Acts g lock none b (some g) b
  unlocks : {k : Goroutine} {b : Bool} → Acts g unlock (some k) b none b
  sets : {o : Option Goroutine} {b : Bool} → Acts g set_failed o b o true
  reads : {o : Option Goroutine} {b : Bool} → Acts g read_failed o b o b

pub data Step : Syncfailer → Syncfailer → Type 0 where
  first_acts :
      {a : Action} {xs ys : List Action} {o o' : Option Goroutine} {b b' : Bool}
      → Acts first a o b o' b'
      → Step
          (record { has_failed = b; holder = o; first_left = a ∷ xs; second_left = ys })
          (record { has_failed = b'; holder = o'; first_left = xs; second_left = ys })
  second_acts :
      {a : Action} {xs ys : List Action} {o o' : Option Goroutine} {b b' : Bool}
      → Acts second a o b o' b'
      → Step
          (record { has_failed = b; holder = o; first_left = xs; second_left = a ∷ ys })
          (record { has_failed = b'; holder = o'; first_left = xs; second_left = ys })

pub data Steps (s : Syncfailer) : Syncfailer → Type 0 where
  start : Steps s s
  next : {t u : Syncfailer} → Steps s t → Step t u → Steps s u
