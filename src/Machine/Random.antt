-- ===== src/Machine/Random.antt =====
-- `RandStringRunes`.
use peg.Base.{ℕ, zero, suc, ◌%◌, ◌<◌, ◌≤◌, ◌⊎◌, ◌≡◌, refl, [], ◌∷◌, length, All, arith, ap}
use peg.Text.{Text, lit}
use peg.World.Ensures.{Returns}
use peg.World.{M, Env, Event, History, ◌>>=◌, pure, call}

abbrev pub letter_runes : Text
letter_runes = lit "abcdefghijklmnopqrstuvwxyzABCDEFGHIJKLMNOPQRSTUVWXYZ"

-- The element at an index, and 0 beyond the end.
unfoldable pub get_or_zero : Text → ℕ → ℕ
get_or_zero [] i = 0
get_or_zero (c ∷ s) zero = c
get_or_zero (c ∷ s) (suc i) = get_or_zero s i

-- What stands first in the buffer; a byte that `rand.Read` has not written is 0.
abbrev first_byte : Text → ℕ
first_byte [] = 0
first_byte (b ∷ _) = b

abbrev later_bytes : Text → Text
later_bytes [] = []
later_bytes (_ ∷ bytes) = bytes

-- The loop over the buffer of `n` bytes.
unfoldable pub pick_letters : ℕ → Text → Text
unfolding get_or_zero lit
pick_letters zero bytes = []
pick_letters (suc n) bytes =
    get_or_zero letter_runes (first_byte bytes % 52) ∷ pick_letters n (later_bytes bytes)

module _ (E : Env) where
  unfoldable pub rand_string_runes : ℕ → M Text
  rand_string_runes n = do r ← call E (Event.random n); pure (pick_letters n r.text)

abbrev pub IsLetter : ℕ → Type 0
IsLetter c = ((b'a' ≤ c) × (c ≤ b'z')) ⊎ ((b'A' ≤ c) × (c ≤ b'Z'))

letter_runes-IsLetter : All IsLetter letter_runes
unfolding lit
letter_runes-IsLetter = omega arith

get_or_zero-IsLetter :
    (s : Text) (i : ℕ) → All IsLetter s → i < length s → IsLetter (get_or_zero s i)
unfolding get_or_zero
get_or_zero-IsLetter [] i a h = elim h [ ]
get_or_zero-IsLetter (c ∷ s) zero a h = a.0
get_or_zero-IsLetter (c ∷ s) (suc i) a h = get_or_zero-IsLetter s i a.1 (omega arith)

pick-IsLetter : (b : ℕ) → IsLetter (get_or_zero letter_runes (b % 52))
unfolding lit
pick-IsLetter b = get_or_zero-IsLetter letter_runes (b % 52) letter_runes-IsLetter (omega arith)

pick_letters-IsLetter :
    (n : ℕ) (bytes : Text)
    → (length (pick_letters n bytes) ≡ n) × All IsLetter (pick_letters n bytes)
unfolding pick_letters
pick_letters-IsLetter zero bytes = (refl, tt)
pick_letters-IsLetter (suc n) bytes =
    let (len, letters) = pick_letters-IsLetter n (later_bytes bytes) in
    (ap suc len, (pick-IsLetter (first_byte bytes), letters))

-- The string has the length that was asked for, and consists of ASCII letters.
pub rand_string_runes-IsLetter :
    (E : Env) (n : ℕ) (h : History)
    → Returns (λ s. (length s ≡ n) × All IsLetter s) (rand_string_runes E n h)
unfolding rand_string_runes
rand_string_runes-IsLetter E n h = pick_letters-IsLetter n (E h (Event.random n)).text
