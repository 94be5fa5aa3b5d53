-- ===== src/Utils/Text.antt =====
-- `StrToBool`, `Trim` and `RandomPrintChar` of core/utils.h. `tolower` and `isspace` are those of
-- the "C" locale, which the program never changes.
pub mod Trimmed
pub mod Boolean
use ycsb_lsm.Base.{
  ℕ, ◌+◌, ◌%◌, Bool, true, false, ◌||◌, ◌&&◌, [], ◌∷◌, ◌++◌, map, leb, ◌==◌, if◌then◌else◌, Bytes,
  codes, same, Run, ok, fault, exception,
}
use mathlib.Core.List.{reverse}

-- `::tolower`
unfoldable pub tolower : ℕ → ℕ
tolower c = if leb b'A' c && leb c b'Z' then c + 32 else c

-- `StrToBool`
unfoldable pub str_to_bool : Bytes → Run Bool
unfolding tolower same
str_to_bool str =
    let s = map tolower str in
    if same s (codes "true") || same s (codes "1")
    then ok true
    else if same s (codes "false") || same s (codes "0")
    then ok false
    else fault (exception (codes "Invalid bool string: " ++ s))

-- `std::isspace`: space, and tab to carriage return
unfoldable pub isspace : ℕ → Bool
isspace c = c == 32 || (leb 9 c && leb c 13)

-- `std::find_if_not` with `isspace`, as the rest of the text from there.
unfoldable pub find_if_not : Bytes → Bytes
unfolding isspace
find_if_not [] = []
find_if_not (c ∷ s) = if isspace c then find_if_not s else c ∷ s

-- `Trim`: from `front` to the last character that is no space, found from the back
unfoldable pub trim : Bytes → Bytes
unfolding find_if_not
trim str = let front = find_if_not str in reverse (find_if_not (reverse front))

-- `rand() % 94 + 33`
unfoldable pub random_print_char : ℕ → ℕ
random_print_char r = r % 94 + 33
