-- ===== src/Machine/Watch.antt =====
-- `monitor`: the goroutine that watches the process of a QEMU machine.
use peg.Base.{
  ℕ, ◌≡◌, refl, Bool, true, false, not, ◌||◌, Option, none, some, List, [], ◌∷◌, ◌++◌, arith,
  Bool-cases, inl, inr, if◌then◌else◌,
}
use peg.Text.{Text, lit, text_eq}
use peg.World.{M, ⊤, Env, Event, Reply, History, ◌▷◌, ◌>>=◌, ◌>>◌, pure, panics, call}
use peg.World.Ensures.{Returns, ReturnsAt, ReturnsAt-map}

-- What wakes the `select`: the context is done, or three seconds have passed.
pub data Wake : Type 0 where
  done tick : Wake

pub data Outcome : Type 0 where
  waiting finished : Outcome

abbrev pub is_some {ℓ} : {A : Type ℓ} → Option A → Bool
is_some none = false
is_some (some a) = true

-- `err != nil || code != "0"`
abbrev pub is_failed : Reply → Bool
is_failed code = is_some code.error || not (text_eq code.text (lit "0"))

-- `f(p)`: a nil function panics.
abbrev call_failure : Env → Text → Option ℕ → M ⊤
call_failure E dir none = panics
call_failure E dir (some f) = do call E (Event.invoke f dir); pure tt

module _ (E : Env) (on_failure : Option ℕ) (dir : Text) where
  abbrev finish : M Outcome
  finish = do call E Event.cancel_context; pure finished

  -- What follows when the process is no longer alive.
  unfoldable pub after_exit : M Outcome
  after_exit = do
    code ← call E (Event.exit_code dir)
    if is_failed code then (do call_failure E dir on_failure; finish) else finish

  -- The `for` loop over the wake-ups so far; `waiting` means that it stands at the `select`.
  unfoldable pub monitor : List Wake → M Outcome
  monitor [] = pure waiting
  monitor (done ∷ wakes) = finish
  monitor (tick ∷ wakes) = do
    alive ← call E (Event.process_alive dir)
    let more = monitor wakes
    if alive.flag then more else after_exit

  abbrev pub IsFailure : History → Type 0
  IsFailure t = is_failed (E t (Event.exit_code dir)) ≡ true

  -- Only checks that found the process alive lie between the two histories.
  pub data Checks (h : History) : History → Type 0 where
    none_yet : Checks h h
    check :
        {t : History}
        → Checks h t
        → (E t (Event.process_alive dir)).flag ≡ true
        → Checks h (t ▷ Event.process_alive dir)

  -- How the loop ends: the context is cancelled last, after a clean exit, after the callback for a
  -- failed one, or with the process alive.
  pub data Ended (h : History) : History → Type 0 where
    cancelled : {t : History} → Checks h t → Ended h (t ▷ Event.cancel_context)
    exited :
        {t : History}
        → Checks h t
        → (E t (Event.process_alive dir)).flag ≡ false
        → ¬ IsFailure (t ▷ Event.process_alive dir)
        → Ended h (t ▷ Event.process_alive dir ▷ Event.exit_code dir ▷ Event.cancel_context)
    failed :
        {t : History} (f : ℕ)
        → on_failure ≡ some f
        → Checks h t
        → (E t (Event.process_alive dir)).flag ≡ false
        → IsFailure (t ▷ Event.process_alive dir)
        → Ended h (
            t
            ▷ Event.process_alive dir
            ▷ Event.exit_code dir
            ▷ Event.invoke f dir
            ▷ Event.cancel_context)

  abbrev pub IsWatched : History → Outcome → History → Type 0
  IsWatched h waiting t = Checks h t
  IsWatched h finished t = Ended h t

  check_first :
      {h t : History}
      → (E h (Event.process_alive dir)).flag ≡ true
      → Checks (h ▷ Event.process_alive dir) t
      → Checks h t
  check_first a none_yet = check none_yet a
  check_first a (check c b) = check (check_first a c) b

  end_later :
      {h t : History}
      → (E h (Event.process_alive dir)).flag ≡ true
      → Ended (h ▷ Event.process_alive dir) t
      → Ended h t
  end_later a (cancelled c) = cancelled (check_first a c)
  end_later a (exited c d s) = exited (check_first a c) d s
  end_later a (failed f e c d s) = failed f e (check_first a c) d s

  watch_later :
      {h : History}
      → (E h (Event.process_alive dir)).flag ≡ true
      → (o : Outcome) (t : History) → IsWatched (h ▷ Event.process_alive dir) o t
      → IsWatched h o t
  watch_later a waiting t w = check_first a w
  watch_later a finished t w = end_later a w

  failure-IsWatched :
      (h : History)
      → (E h (Event.process_alive dir)).flag ≡ false
      → IsFailure (h ▷ Event.process_alive dir)
      → (f : Option ℕ) → on_failure ≡ f
      → ReturnsAt
          (IsWatched h)
          ((call_failure E dir f >> finish) (h ▷ Event.process_alive dir ▷ Event.exit_code dir))
  failure-IsWatched h d bad none e = tt
  failure-IsWatched h d bad (some f) e = failed f e none_yet d bad

  -- The part of the loop behind a check that found the process dead.
  exit-IsWatched :
      (h : History)
      → (E h (Event.process_alive dir)).flag ≡ false
      → ReturnsAt (IsWatched h) (after_exit (h ▷ Event.process_alive dir))
  unfolding after_exit
  exit-IsWatched h d =
      elim (Bool-cases (is_failed (E (h ▷ Event.process_alive dir) (Event.exit_code dir)))) [
        | inl bad ↦ rw bad (failure-IsWatched h d bad on_failure refl)
        | inr good ↦ rw good (exited none_yet d (λ bad. cc))
      ]

  -- After any wake-ups, unless the callback has panicked, the loop has made only checks that found the
  -- process alive, or has ended in one of the three ways: in particular the callback is called at
  -- most once, only after a failed exit, and the context is cancelled last.
  pub monitor-IsWatched :
      (wakes : List Wake) (h : History) → ReturnsAt (IsWatched h) (monitor wakes h)
  unfolding monitor
  monitor-IsWatched [] h = none_yet
  monitor-IsWatched (done ∷ wakes) h = cancelled none_yet
  monitor-IsWatched (tick ∷ wakes) h = elim (Bool-cases (E h (Event.process_alive dir)).flag) [
    | inl a ↦ rw a (
        ReturnsAt-map (IsWatched (h ▷ Event.process_alive dir)) (IsWatched h) (watch_later a)
          (monitor wakes (h ▷ Event.process_alive dir))
          (monitor-IsWatched wakes (h ▷ Event.process_alive dir)))
    | inr d ↦ rw d (exit-IsWatched h d)
  ]

  -- Once the context is done, the loop does not wait on: it has ended, or has called a nil callback.
  pub monitor-ends :
      (wakes : List Wake) (later : List Wake) (h : History)
      → Returns (λ o. o ≡ finished) (monitor (wakes ++ done ∷ later) h)
  unfolding monitor after_exit
  monitor-ends [] later h = refl
  monitor-ends (done ∷ wakes) later h = refl
  monitor-ends (tick ∷ wakes) later h =
      ground (arith, monitor-ends wakes later (h ▷ Event.process_alive dir))
