-- ===== src/Text.antt =====
-- Go strings as lists of bytes, and what the program uses of the packages strings, fmt and
-- path/filepath: Contains, Split at one byte, Join, ToLower on ASCII, %d, Clean and Join of paths.
pub mod Laws
pub mod FilePath
use Prim.Native.Char.{code}
use Prim.Native.String.{String}
use peg.Base.{
  ℕ, zero, suc, ◌+◌, ◌/◌, ◌%◌, Bool, true, false, ◌&&◌, ◌||◌, List, [], ◌∷◌, ◌++◌, ltb, leb, ◌==◌,
  if◌then◌else◌,
}

abbrev pub Text : Type 0
Text = List ℕ

-- A literal of the source; all of them are ASCII.
unfoldable pub lit : String → Text
lit String.[] = []
lit (String.◌∷◌ c s) = code c ∷ lit s

-- `s == ""`
abbrev pub is_empty : Text → Bool
is_empty [] = true
is_empty (_ ∷ _) = false

-- `s == t`
unfoldable pub text_eq : Text → Text → Bool
text_eq [] [] = true
text_eq (x ∷ xs) (y ∷ ys) = x == y && text_eq xs ys
text_eq _ _ = false

-- strings.HasPrefix
unfoldable pub has_prefix : Text → Text → Bool
has_prefix s [] = true
has_prefix [] (y ∷ ys) = false
has_prefix (x ∷ xs) (y ∷ ys) = x == y && has_prefix xs ys

-- strings.Contains
unfoldable pub contains : Text → Text → Bool
unfolding has_prefix
contains [] sub = is_empty sub
contains (x ∷ xs) sub = has_prefix (x ∷ xs) sub || contains xs sub

-- Puts a byte in front of the first piece.
abbrev cons_first : ℕ → List Text → List Text
cons_first x [] = (x ∷ []) ∷ []
cons_first x (p ∷ ps) = (x ∷ p) ∷ ps

-- strings.Split at a separator of one byte
unfoldable pub split : Text → ℕ → List Text
split [] sep = [] ∷ []
split (x ∷ xs) sep = let rest = split xs sep in if x == sep then [] ∷ rest else cons_first x rest

-- strings.Join
unfoldable pub join : List Text → Text → Text
join [] sep = []
join (p ∷ []) sep = p
join (p ∷ q ∷ ps) sep = p ++ (sep ++ join (q ∷ ps) sep)

abbrev lower : ℕ → ℕ
lower c = if leb b'A' c && leb c b'Z' then c + 32 else c

-- strings.ToLower on ASCII text
unfoldable pub to_lower : Text → Text
to_lower [] = []
to_lower (c ∷ s) = lower c ∷ to_lower s

-- `%d` of a number that is not negative, on fuel.
decimal_loop : ℕ → ℕ → Text
decimal_loop zero n = []
decimal_loop (suc f) n =
    let rest = decimal_loop f (n / 10) in
    if ltb n 10 then (b'0' + n) ∷ [] else rest ++ ((b'0' + n % 10) ∷ [])

-- The fuel `n + 1` is enough, since `n / 10 < n`.
unfoldable pub decimal : ℕ → Text
unfolding decimal_loop
decimal n = decimal_loop (suc n) n
