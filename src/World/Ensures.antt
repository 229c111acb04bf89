-- ===== src/World/Ensures.antt =====
-- Postconditions of calls: what holds if a call returns normally, and that it cannot panic.

use peg.World.{History, Exit, ok, err, panic, M, ◌>>=◌}

-- If the call returned normally, `P` holds of its value.
abbrev pub Returns : {A : Type 0} → (A → Type 0) → Exit A × History → Type 0
Returns P (ok a, h) = P a
Returns P (err e, h) = Unit
Returns P (panic, h) = Unit

-- The same of the value and the history.
abbrev pub ReturnsAt : {A : Type 0} → (A → History → Type 0) → Exit A × History → Type 0
ReturnsAt P (ok a, h) = P a h
ReturnsAt P (err e, h) = Unit
ReturnsAt P (panic, h) = Unit

-- The call returned, normally or with an error.
abbrev pub NoPanic : {A : Type 0} → Exit A × History → Type 0
NoPanic (ok a, h) = Unit
NoPanic (err e, h) = Unit
NoPanic (panic, h) = ⊥

pub Returns-bind :
    {A B : Type 0} (Q : A → Type 0) (P : B → Type 0) (m : M A) (f : A → M B) (h : History)
    → Returns Q (m h)
    → ((a : A) (t : History) → Q a → Returns P (f a t))
    → Returns P ((m >>= f) h)
Returns-bind {A} {B} Q P m f h r next = go (m h) r
  where
    go :
        (x : Exit A × History)
        → Returns Q x
        → Returns P (
            let (y, t) = x in
            elim y as (λ _. Exit B × History) [
              | ok a ↦ f a t
              | err e ↦ (err e, t)
              | panic ↦ (panic, t)
            ])
    go (ok a, t) q = next a t q
    go (err e, t) q = tt
    go (panic, t) q = tt

pub NoPanic-bind :
    {A B : Type 0} (Q : A → Type 0) (m : M A) (f : A → M B) (h : History)
    → NoPanic (m h)
    → Returns Q (m h)
    → ((a : A) (t : History) → Q a → NoPanic (f a t))
    → NoPanic ((m >>= f) h)
NoPanic-bind {A} {B} Q m f h p r next = go (m h) p r
  where
    go :
        (x : Exit A × History)
        → NoPanic x
        → Returns Q x
        → NoPanic (
            let (y, t) = x in
            elim y as (λ _. Exit B × History) [
              | ok a ↦ f a t
              | err e ↦ (err e, t)
              | panic ↦ (panic, t)
            ])
    go (ok a, t) p q = next a t q
    go (err e, t) p q = tt
    go (panic, t) p q = absurd p

pub ReturnsAt-map :
    {A : Type 0} (P Q : A → History → Type 0)
    → ((a : A) (t : History) → P a t → Q a t)
    → (r : Exit A × History) → ReturnsAt P r
    → ReturnsAt Q r
ReturnsAt-map P Q f (ok a, t) p = f a t p
ReturnsAt-map P Q f (err e, t) p = tt
ReturnsAt-map P Q f (panic, t) p = tt
