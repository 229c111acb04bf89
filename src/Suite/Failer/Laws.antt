-- ===== src/Suite/Failer/Laws.antt =====
-- No two goroutines access the flag of a `Syncfailer` at a time.
use peg.Base.{
  ◌≡◌, ◌⊎◌, inl, inr, refl, ◌∙◌, Bool, true, false, ◌||◌, Option, none, some, List, [], ◌∷◌, ◌++◌,
  arith,
}
use peg.Suite.Failer.{
  Action, lock, unlock, set_failed, read_failed, fail, failed, Goroutine, first, second, Syncfailer,
  Acts, locks, unlocks, sets, reads, Step, first_acts, second_acts, Steps, start, next,
}

-- A call of a method.
pub data FailerCall : Type 0 where
  call_fail call_failed : FailerCall

abbrev pub body : FailerCall → List Action
body call_fail = fail
body call_failed = failed

-- What a goroutine does that makes these calls.
abbrev pub bodies : List FailerCall → List Action
bodies [] = []
bodies (c ∷ calls) = body c ++ bodies calls

-- The next action reads or writes the flag.
abbrev pub AccessesNext : List Action → Type 0
AccessesNext [] = ⊥
AccessesNext (lock ∷ xs) = ⊥
AccessesNext (unlock ∷ xs) = ⊥
AccessesNext (set_failed ∷ xs) = Unit
AccessesNext (read_failed ∷ xs) = Unit

-- Where a goroutine can be: between two calls, or in one, before its access or behind it.
data Outside : List Action → Type 0 where
  ended : Outside []
  fails : {xs : List Action} → Outside xs → Outside (lock ∷ set_failed ∷ unlock ∷ xs)
  asks : {xs : List Action} → Outside xs → Outside (lock ∷ read_failed ∷ unlock ∷ xs)

data Inside : List Action → Type 0 where
  before_set : {xs : List Action} → Outside xs → Inside (set_failed ∷ unlock ∷ xs)
  before_read : {xs : List Action} → Outside xs → Inside (read_failed ∷ unlock ∷ xs)
  behind : {xs : List Action} → Outside xs → Inside (unlock ∷ xs)

-- The lock is held by the goroutine that is in a call, if there is one.
data IsLocked : Option Goroutine → List Action → List Action → Type 0 where
  free : {xs ys : List Action} → Outside xs → Outside ys → IsLocked none xs ys
  by_first : {xs ys : List Action} → Inside xs → Outside ys → IsLocked (some first) xs ys
  by_second : {xs ys : List Action} → Outside xs → Inside ys → IsLocked (some second) xs ys

bodies-Outside : (calls : List FailerCall) → Outside (bodies calls)
unfolding fail failed
bodies-Outside [] = ended
bodies-Outside (call_fail ∷ calls) = fails (bodies-Outside calls)
bodies-Outside (call_failed ∷ calls) = asks (bodies-Outside calls)

-- The lock that an action leaves, for a goroutine that is between two calls.
enters :
    {g : Goroutine} {a : Action} {xs : List Action} {o' : Option Goroutine} {b b' : Bool}
    → Outside (a ∷ xs)
    → Acts g a none b o' b'
    → (o' ≡ some g) × Inside xs
enters (fails x) locks = (refl, before_set x)
enters (asks x) locks = (refl, before_read x)

waits :
    {g k : Goroutine} {a : Action} {xs : List Action} {o' : Option Goroutine} {b b' : Bool}
    → Outside (a ∷ xs)
    → ¬ Acts g a (some k) b o' b'
waits (fails x) a = elim a [ ]
waits (asks x) a = elim a [ ]

-- For a goroutine that holds the lock: it keeps it, or leaves its call.
goes_on :
    {g : Goroutine} {a : Action} {xs : List Action} {o' : Option Goroutine} {b b' : Bool}
    → Inside (a ∷ xs)
    → Acts g a (some g) b o' b'
    → ((o' ≡ some g) × Inside xs) ⊎ ((o' ≡ none) × Outside xs)
goes_on (before_set x) sets = inl (refl, behind x)
goes_on (before_read x) reads = inl (refl, behind x)
goes_on (behind x) unlocks = inr (refl, x)

abbrev IsLockedState : Syncfailer → Type 0
IsLockedState s = IsLocked s.holder s.first_left s.second_left

first-IsLocked :
    {a : Action} {xs ys : List Action} {o o' : Option Goroutine} {b b' : Bool}
    → IsLocked o (a ∷ xs) ys
    → Acts first a o b o' b'
    → IsLocked o' xs ys
first-IsLocked (free x y) acts = let (e, inside) = enters x acts in rw e (by_first inside y)
first-IsLocked (by_first x y) acts = elim (goes_on x acts) [
  | inl (e, inside) ↦ rw e (by_first inside y)
  | inr (e, outside) ↦ rw e (free outside y)
]
first-IsLocked (by_second x y) acts = absurd (waits x acts)

second-IsLocked :
    {a : Action} {xs ys : List Action} {o o' : Option Goroutine} {b b' : Bool}
    → IsLocked o xs (a ∷ ys)
    → Acts second a o b o' b'
    → IsLocked o' xs ys
second-IsLocked (free x y) acts = let (e, inside) = enters y acts in rw e (by_second x inside)
second-IsLocked (by_first x y) acts = absurd (waits y acts)
second-IsLocked (by_second x y) acts = elim (goes_on y acts) [
  | inl (e, inside) ↦ rw e (by_second x inside)
  | inr (e, outside) ↦ rw e (free x outside)
]

Step-IsLocked : {s t : Syncfailer} → Step s t → IsLockedState s → IsLockedState t
Step-IsLocked (first_acts acts) locked = first-IsLocked locked acts
Step-IsLocked (second_acts acts) locked = second-IsLocked locked acts

Steps-IsLocked : {s t : Syncfailer} → IsLockedState s → Steps s t → IsLockedState t
Steps-IsLocked locked start = locked
Steps-IsLocked locked (next steps st) = Step-IsLocked st (Steps-IsLocked locked steps)

Outside-never : {xs : List Action} → Outside xs → ¬ AccessesNext xs
Outside-never ended a = a
Outside-never (fails x) a = a
Outside-never (asks x) a = a

no_race :
    {o : Option Goroutine} {xs ys : List Action}
    → IsLocked o xs ys
    → ¬ (AccessesNext xs × AccessesNext ys)
no_race (free x y) (a, b) = Outside-never x a
no_race (by_first x y) (a, b) = Outside-never y b
no_race (by_second x y) (a, b) = Outside-never x a

-- A new failer, and the calls that each of two goroutines makes.
abbrev pub new_synced_failer : List FailerCall → List FailerCall → Syncfailer
new_synced_failer xs ys = record {
  has_failed = false;
  holder = none;
  first_left = bodies xs;
  second_left = bodies ys;
}

-- Two goroutines make any calls of `Fail` and `Failed` on a new failer, in any interleaving of their
-- steps that the lock allows: they never stand both before an access to the flag.
pub Steps-no_race :
    (xs ys : List FailerCall) (s : Syncfailer)
    → Steps (new_synced_failer xs ys) s
    → ¬ (AccessesNext s.first_left × AccessesNext s.second_left)
Steps-no_race xs ys s steps =
    no_race (Steps-IsLocked (free (bodies-Outside xs) (bodies-Outside ys)) steps)

-- A `Fail` is still to come.
abbrev pub will_fail : List Action → Bool
will_fail [] = false
will_fail (set_failed ∷ xs) = true
will_fail (lock ∷ xs) = will_fail xs
will_fail (unlock ∷ xs) = will_fail xs
will_fail (read_failed ∷ xs) = will_fail xs

abbrev pub some_fail : List FailerCall → Bool
some_fail [] = false
some_fail (call_fail ∷ calls) = true
some_fail (call_failed ∷ calls) = some_fail calls

will_fail-bodies : (calls : List FailerCall) → will_fail (bodies calls) ≡ some_fail calls
unfolding fail failed
will_fail-bodies [] = refl
will_fail-bodies (call_fail ∷ calls) = refl
will_fail-bodies (call_failed ∷ calls) = will_fail-bodies calls

-- The flag is set, or will be.
abbrev ever_fails : Syncfailer → Bool
ever_fails s = s.has_failed || (will_fail s.first_left || will_fail s.second_left)

Acts-ever_fails :
    {g : Goroutine} {a : Action} (xs : List Action) {o o' : Option Goroutine} {b b' : Bool}
    → Acts g a o b o' b'
    → (b' || will_fail xs) ≡ (b || will_fail (a ∷ xs))
Acts-ever_fails xs locks = refl
Acts-ever_fails xs unlocks = refl
Acts-ever_fails xs sets = ground arith
Acts-ever_fails xs reads = refl

Step-ever_fails : {s t : Syncfailer} → Step s t → ever_fails t ≡ ever_fails s
Step-ever_fails (first_acts {a} {xs} {ys} acts) = ground (arith, Acts-ever_fails xs acts)
Step-ever_fails (second_acts {a} {xs} {ys} acts) = ground (arith, Acts-ever_fails ys acts)

Steps-ever_fails : {s t : Syncfailer} → Steps s t → ever_fails t ≡ ever_fails s
Steps-ever_fails start = refl
Steps-ever_fails (next steps st) = Step-ever_fails st ∙ Steps-ever_fails steps

-- When both goroutines are through with their calls on a new failer, in any interleaving, the flag is
-- set exactly if one of them has called `Fail`.
pub Steps-has_failed :
    (xs ys : List FailerCall) (s : Syncfailer)
    → Steps (new_synced_failer xs ys) s
    → s.first_left ≡ []
    → s.second_left ≡ []
    → s.has_failed ≡ (some_fail xs || some_fail ys)
Steps-has_failed xs ys s steps e f =
    ground (arith, Steps-ever_fails steps, will_fail-bodies xs, will_fail-bodies ys)
