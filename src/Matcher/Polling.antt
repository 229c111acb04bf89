-- ===== src/Matcher/Polling.antt =====
-- The polling of `machineEventuallyConnects`: which answers of the machine end it.
use peg.Base.{
  ℕ, zero, suc, ◌<◌, ◌≡◌, ◌↔◌, refl, true, false, Option, List, arith, Bool, Bool-cases, inl, inr,
}
use peg.Text.{Text, lit}
use peg.World.{Env, Event, Error, History, Exit, ok, err, panic, ◌▷◌}
use peg.Machine.Kind.{Machine}
use peg.Matcher.Gomega.{Gomega}
use peg.Matcher.Dispatch as Dispatch
use peg.Matcher.Helpers.{line, poll_ping, machine_eventually_connects, first_or}

module _ (E : Env) (G : Gomega) (m : Machine) where
  abbrev pub is_ping : Text → Bool
  is_ping out = G.equal (line (lit "ping")) out

  -- From the first history to the second, `k` polls were answered by something else, five seconds
  -- apart, and the one after them by `ping`.
  pub data IsPinged : ℕ → History → History → Type 0 where
    answered :
        {h t : History} {out : Text} {x : Option Error}
        → Dispatch.command E m (lit "echo ping") h ≡ (ok (out, x), t)
        → is_ping out ≡ true
        → IsPinged zero h t
    later :
        {k : ℕ} {h t u : History} {out : Text} {x : Option Error}
        → Dispatch.command E m (lit "echo ping") h ≡ (ok (out, x), t)
        → is_ping out ≡ false
        → IsPinged k (t ▷ Event.sleep 5) u
        → IsPinged (suc k) h u

  connects_if :
      (n k : ℕ) {h u : History} → IsPinged k h u → k < n → poll_ping E G n m h ≡ (ok tt, u)
  unfolding poll_ping
  connects_if zero k p l = absurd (omega arith)
  connects_if (suc n) zero (answered c a) l = ground arith
  connects_if (suc n) (suc k) (later c a p) l = ground (arith, connects_if n k p (omega arith))

  connects_only_if :
      (n : ℕ) {h u : History}
      → poll_ping E G n m h ≡ (ok tt, u)
      → (k : ℕ) × (k < n) × IsPinged k h u
  unfolding poll_ping
  connects_only_if zero e = absurd (ground arith)
  connects_only_if (suc n) {h} {u} e =
      by_reply (Dispatch.command E m (lit "echo ping") h) refl (λ t. connects_only_if n)
    where
      by_reply :
          (r : Exit (Text × Option Error) × History)
          → Dispatch.command E m (lit "echo ping") h ≡ r
          → ((t : History)
              → poll_ping E G n m (t ▷ Event.sleep 5) ≡ (ok tt, u)
              → (k : ℕ) × (k < n) × IsPinged k (t ▷ Event.sleep 5) u)
          → (k : ℕ) × (k < suc n) × IsPinged k h u
      by_reply (ok (out, x), t) p next = elim (Bool-cases (is_ping out)) [
        | inl a ↦ (0, omega arith, answered {out = out} {x = x} (ground arith) a)
        | inr d ↦
            let (k, l, pinged) = next t (ground arith) in
            (suc k, omega arith, later {out = out} {x = x} p d pinged)
      ]
      by_reply (err y, t) p next = absurd (ground arith)
      by_reply (panic, t) p next = absurd (ground arith)

  -- `machineEventuallyConnects` returns normally exactly if, among as many polls as are made within
  -- the given seconds (360 if none are given), one is answered by `ping` after others that were not;
  -- and it stops there.
  pub machine_eventually_connects-eq-ok :
      (seconds : List ℕ) (h u : History)
      → let start = Event.start_polling (first_or 360 seconds) in
        (machine_eventually_connects E G m seconds h ≡ (ok tt, u))
        ↔ ((k : ℕ) × (k < (E h start).number) × IsPinged k (h ▷ start) u)
  unfolding machine_eventually_connects
  machine_eventually_connects-eq-ok seconds h u =
      let n = (E h (Event.start_polling (first_or 360 seconds))).number in
      (λ e. connects_only_if n e, λ pinged. connects_if n pinged.0 pinged.2 pinged.1)
