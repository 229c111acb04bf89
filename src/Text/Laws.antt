-- ===== src/Text/Laws.antt =====
-- Equality of texts, and the inverse of `decimal`.
use peg.Base.{
  ℕ, zero, suc, ◌+◌, ◌-◌, ◌*◌, ◌/◌, ◌%◌, ◌<◌, ◌≡◌, refl, ◌↔◌, inl, inr, true, false, [], ◌∷◌, ◌++◌,
  arith, ltb, Bool-cases,
}
use peg.Text.{Text, is_empty, text_eq, decimal, decimal_loop}

pub text_eq_sound : (s t : Text) → text_eq s t ≡ true → s ≡ t
unfolding text_eq
text_eq_sound [] [] h = refl
text_eq_sound [] (y ∷ ys) h = cc
text_eq_sound (x ∷ xs) [] h = cc
text_eq_sound (x ∷ xs) (y ∷ ys) h = ground (arith, text_eq_sound xs ys)

pub text_eq_refl : (s : Text) → text_eq s s ≡ true
unfolding text_eq
text_eq_refl [] = refl
text_eq_refl (x ∷ xs) = ground (arith, text_eq_refl xs)

pub text_eq_iff : (s t : Text) → (text_eq s t ≡ true) ↔ (s ≡ t)
text_eq_iff s t = (text_eq_sound s t, λ e. rw e (text_eq_refl t))

-- The number that a text of digits stands for, read from the left.
value_from : ℕ → Text → ℕ
value_from acc [] = acc
value_from acc (c ∷ s) = value_from (acc * 10 + (c - b'0')) s

pub value : Text → ℕ
unfolding value_from
value s = value_from 0 s

value_from-append :
    (s : Text) (acc c : ℕ) → value_from acc (s ++ (c ∷ [])) ≡ value_from acc s * 10 + (c - b'0')
unfolding value_from
value_from-append [] acc c = refl
value_from-append (x ∷ s) acc c = value_from-append s (acc * 10 + (x - b'0')) c

value-decimal_loop : (f n : ℕ) → n < f → value_from 0 (decimal_loop f n) ≡ n
unfolding decimal_loop value_from
value-decimal_loop zero n h = elim h [ ]
value-decimal_loop (suc f) n h = elim (Bool-cases (ltb n 10)) [
  | inl small ↦ rw small (omega arith)
  | inr large ↦
      rw (large, value_from-append) (ground (arith, value-decimal_loop f (n / 10) (ground arith)))
]

-- `decimal` is injective, since the number can be read back.
pub value-decimal : (n : ℕ) → value (decimal n) ≡ n
unfolding value decimal
value-decimal n = value-decimal_loop (suc n) n (omega arith)

pub decimal-injective : {m n : ℕ} → decimal m ≡ decimal n → m ≡ n
decimal-injective {m} {n} e = cc (value-decimal m, value-decimal n)

append_one-ne-nil : (s : Text) (c : ℕ) → is_empty (s ++ (c ∷ [])) ≡ false
append_one-ne-nil [] c = refl
append_one-ne-nil (x ∷ s) c = refl

pub decimal-ne-nil : (n : ℕ) → is_empty (decimal n) ≡ false
unfolding decimal decimal_loop
decimal-ne-nil n = ground (arith, append_one-ne-nil (decimal_loop n (n / 10)) (b'0' + n % 10))
