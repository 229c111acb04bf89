-- ===== src/World/Laws.antt =====
-- The monad's laws, and an inversion of a successful bind.
use peg.Base.{◌≡◌, refl, arith}
use peg.World.{History, Exit, ok, err, panic, M, ◌>>=◌}
use mathlib.Core.Path.{fun_ext}

pub >>=_assoc :
    {A B C : Type 0} (m : M A) (f : A → M B) (g : B → M C)
    → ((m >>= f) >>= g) ≡ (m >>= λ a. f a >>= g)
>>=_assoc m f g = fun_ext λ h. ground arith

-- A bind that returns normally did so in both parts.
pub >>=-eq-ok :
    {A B : Type 0} (m : M A) (f : A → M B) (h : History) {b : B} {h' : History}
    → (m >>= f) h ≡ (ok b, h')
    → (a : A) × (t : History) × (m h ≡ (ok a, t)) × (f a t ≡ (ok b, h'))
>>=-eq-ok {A} {B} m f h {b} {h'} e = go (m h) refl e
  where
    go :
        (r : Exit A × History)
        → m h ≡ r
        → (elim r.0 [ ok a ↦ f a r.1 | err x ↦ (err x, r.1) | panic ↦ (panic, r.1) ]) ≡ (ok b, h')
        → (a : A) × (t : History) × (m h ≡ (ok a, t)) × (f a t ≡ (ok b, h'))
    go (ok a, t) p q = (a, t, p, q)
    go (err x, t) p q = cc
    go (panic, t) p q = cc
