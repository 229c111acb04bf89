-- ===== src/Machine/Prepare/Checksum.antt =====
-- What the checksum of a downloaded ISO is worth.
use peg.Base.{
  ℕ, suc, ◌+◌, ◌≤◌, ◌==◌, ◌≡◌, refl, true, false, none, some, List, [], ◌∷◌, arith, length,
  if◌then◌else◌,
}
use peg.Text.{Text, is_empty, split, lit, text_eq, to_lower}
use peg.Text.Laws.{text_eq_iff}
use peg.World.{Env, Event, ok, History}
use peg.World.Ensures.{ReturnsAt}
use peg.Config.{MachineConfig}
use peg.Machine.Download.{UrlParser, is_valid_url}
use peg.Machine.Prepare.{
  fetch_iso, verify_checksum, compare_checksum, checksum_pieces, checksum_function, pick_pieces,
}

-- How often a byte stands in a text.
abbrev pub occurrences : ℕ → Text → ℕ
occurrences c [] = 0
occurrences c (x ∷ s) = (if x == c then 1 else 0) + occurrences c s

length-split : (s : Text) (c : ℕ) → length (split s c) ≡ suc (occurrences c s)
unfolding split
length-split [] c = refl
length-split (x ∷ s) c = ground (arith, length-split s c)

many_pieces :
    (s : Text) (pieces : List Text)
    → 3 ≤ length pieces
    → checksum_function (pick_pieces s pieces).0 ≡ none
unfolding checksum_function to_lower text_eq lit
many_pieces s [] many = absurd (omega (arith, many))
many_pieces s (p ∷ []) many = absurd (omega (arith, many))
many_pieces s (p ∷ q ∷ []) many = absurd (omega (arith, many))
many_pieces s (p ∷ q ∷ r ∷ pieces) many = refl

-- With more than one colon there is no algorithm.
checksum_function-none :
    (s : Text) → 2 ≤ occurrences b':' s → checksum_function (checksum_pieces s).0 ≡ none
unfolding checksum_pieces
checksum_function-none s many =
    many_pieces s (split s b':') (omega (arith, length-split s b':', many))

module _ (E : Env) where
  -- The last call was that of the checksum function on the file, and its reply was the hash.
  abbrev pub IsChecked : Text → Text → Text → History → Type 0
  IsChecked function hash dst [] = ⊥
  IsChecked function hash dst (e ∷ t) = (e ≡ Event.checksum function dst) × ((E t e).text ≡ hash)

  compare_checksum-IsChecked :
      (function hash dst : Text) (h : History)
      → ReturnsAt
          (λ _ t. IsChecked function hash dst t)
          (compare_checksum E (some function) hash dst h)
  unfolding compare_checksum
  compare_checksum-IsChecked function hash dst h =
      ground (arith, text_eq_iff (E h (Event.checksum function dst)).text hash)

  verify_checksum-IsChecked :
      (iso_checksum dst : Text) (h : History) (function : Text)
      → is_empty iso_checksum ≡ false
      → checksum_function (checksum_pieces iso_checksum).0 ≡ some function
      → ReturnsAt
          (λ _ t. IsChecked function (checksum_pieces iso_checksum).1 dst t)
          (verify_checksum E iso_checksum dst h)
  unfolding verify_checksum
  verify_checksum-IsChecked iso_checksum dst h function given known =
      rw (given, known) (compare_checksum-IsChecked function (checksum_pieces iso_checksum).1 dst h)

  -- A checksum with two colons or more, whatever stands between them, is accepted: nothing is
  -- computed, and no error is returned.
  pub verify_checksum-ignored :
      (iso_checksum dst : Text) (h : History)
      → 2 ≤ occurrences b':' iso_checksum
      → verify_checksum E iso_checksum dst h ≡ (ok tt, h)
  unfolding verify_checksum compare_checksum
  verify_checksum-ignored iso_checksum dst h many =
      ground (arith, checksum_function-none iso_checksum many)

  module _ (U : UrlParser) where
    -- The ISO is a URL, and its checksum names a known algorithm: if `fetch_iso` returns normally,
    -- the file that it leaves in the configuration was checked last, and has the hash.
    pub fetch_iso-IsChecked :
        (mc : MachineConfig) (h : History) {function : Text}
        → is_valid_url U mc.iso ≡ true
        → is_empty mc.iso_checksum ≡ false
        → checksum_function (checksum_pieces mc.iso_checksum).0 ≡ some function
        → ReturnsAt
            (λ mc' t. IsChecked function (checksum_pieces mc.iso_checksum).1 mc'.iso t)
            (fetch_iso E U mc h)
    unfolding fetch_iso
    fetch_iso-IsChecked mc h {function} url given known =
        let verified = λ (dst : Text) (t : History).
          verify_checksum-IsChecked mc.iso_checksum dst t function given known in
        grind (arith, verified)
