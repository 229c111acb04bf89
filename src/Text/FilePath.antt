-- ===== src/Text/FilePath.antt =====
-- filepath.Clean, filepath.Join and filepath.Base on Unix.
use peg.Base.{◌≡◌, refl, Bool, ◌&&◌, ◌||◌, not, List, [], ◌∷◌, ◌++◌, if◌then◌else◌}
use peg.Text.{Text, lit, is_empty, text_eq, has_prefix, split, join}
use mathlib.Core.List.{reverse}

-- The components kept so far, the last first, after one more component.
abbrev push_part : Bool → List Text → Text → List Text
push_part rooted [] part =
    if is_empty part || text_eq part (lit ".") || (text_eq part (lit "..") && rooted)
    then []
    else part ∷ []
push_part rooted (top ∷ kept) part =
    if is_empty part || text_eq part (lit ".")
    then top ∷ kept
    else if text_eq part (lit "..") && not (text_eq top (lit ".."))
    then kept
    else part ∷ top ∷ kept

clean_parts : Bool → List Text → List Text → List Text
clean_parts rooted kept [] = kept
clean_parts rooted kept (part ∷ parts) = clean_parts rooted (push_part rooted kept part) parts

-- filepath.Clean
unfoldable pub clean : Text → Text
unfolding lit text_eq has_prefix split join clean_parts
clean path =
    let rooted = has_prefix path (lit "/") in
    let kept = join (reverse (clean_parts rooted [] (split path b'/'))) (lit "/") in
    let cleaned = (if rooted then lit "/" ++ kept else kept) in
    if is_empty cleaned then lit "." else cleaned

-- filepath.Join of two elements; empty ones are ignored.
unfoldable pub join_path : Text → Text → Text
unfolding clean
join_path [] [] = []
join_path [] (c ∷ name) = clean (c ∷ name)
join_path (c ∷ dir) [] = clean (c ∷ dir)
join_path (c ∷ dir) (d ∷ name) = clean ((c ∷ dir) ++ (lit "/" ++ (d ∷ name)))

-- The last of the components that are not empty, or the text where there are none.
abbrev last_part : Text → List Text → Text
last_part default [] = default
last_part default ([] ∷ parts) = last_part default parts
last_part default ((c ∷ part) ∷ parts) = last_part (c ∷ part) parts

-- filepath.Base
unfoldable pub base : Text → Text
unfolding lit split
base [] = lit "."
base (c ∷ path) = last_part (lit "/") (split (c ∷ path) b'/')

base_runs : (base (lit "/run/a.log/") ≡ lit "a.log") × (base (lit "//") ≡ lit "/")
unfolding base
base_runs = (refl, refl)

join_path_runs : join_path (lit "/tmp/peg1") (lit "a.iso") ≡ lit "/tmp/peg1/a.iso"
unfolding join_path
join_path_runs = refl

join_path_cleans : join_path (lit "state//./x/..") (lit "../q") ≡ lit "q"
unfolding join_path
join_path_cleans = refl
