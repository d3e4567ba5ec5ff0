-- ===== src/Prelude/Text.antt =====
-- Texts as lists of code points, and `str::trim().is_empty()`.
use Prim.Native.Nat.{ℕ}
use Prim.Native.Char.{code}
use Prim.Native.String.{String}
use Prim.Native.Nat.{zero, suc, ◌/◌, ◌%◌}
use Prim.Native.String.{◌++◌}
use mathlib.Core.Bool.{Bool, true, false, ◌&&◌, ◌||◌}
use mathlib.Core.Option.{Option, none, some}
use mathlib.Core.List.{List, [], ◌∷◌}
use lazybones.Prelude.Tests.{leb, ltb, nat_eq, if◌then◌else◌, unwrap_or}
use lazybones.Prelude.Lists.{codes, get_elem?, length, any}

-- `char::is_whitespace`: the code points of the Unicode property White_Space.
abbrev pub is_whitespace : ℕ → Bool
is_whitespace c =
    (leb 9 c && leb c 13)
    || nat_eq c 0x20
    || nat_eq c 0x85
    || nat_eq c 0xa0
    || nat_eq c 0x1680
    || (leb 0x2000 c && leb c 0x200a)
    || nat_eq c 0x2028
    || nat_eq c 0x2029
    || nat_eq c 0x202f
    || nat_eq c 0x205f
    || nat_eq c 0x3000

-- The text is empty once it is trimmed.
abbrev pub is_blank : String → Bool
is_blank String.[] = true
is_blank (String.◌∷◌ c s) = is_whitespace (code c) && is_blank s

-- `str::starts_with` and `str::contains`, on the code points.
abbrev pub starts_with : List ℕ → List ℕ → Bool
starts_with [] ys = true
starts_with (x ∷ xs) [] = false
starts_with (x ∷ xs) (y ∷ ys) = nat_eq x y && starts_with xs ys

abbrev has_codes : List ℕ → List ℕ → Bool
has_codes xs [] = starts_with xs []
has_codes xs (y ∷ ys) = starts_with xs (y ∷ ys) || has_codes xs ys

abbrev pub has_part : String → String → Bool
has_part s part = has_codes (codes part) (codes s)

-- One of the parts stands in the text.
abbrev pub has_any : String → List String → Bool
has_any s parts = any (has_part s) parts

abbrev pub has_prefix : String → String → Bool
has_prefix s part = starts_with (codes part) (codes s)

-- `str::trim_start_matches`, `str::trim_start` and `str::trim`.
abbrev pub trim_start_matches : (ℕ → Bool) → String → String
trim_start_matches p String.[] = String.[]
trim_start_matches p (String.◌∷◌ c s) =
    let rest = trim_start_matches p s in if p (code c) then rest else String.◌∷◌ c s

abbrev pub trim_start : String → String
trim_start s = trim_start_matches is_whitespace s

abbrev pub trim_end : String → String
trim_end String.[] = String.[]
trim_end (String.◌∷◌ c s) =
    let rest = trim_end s in if is_blank (String.◌∷◌ c s) then String.[] else String.◌∷◌ c rest

abbrev pub trim : String → String
trim s = trim_end (trim_start s)

-- The text without its first `n` code points.
abbrev pub drop_chars : ℕ → String → String
drop_chars zero s = s
drop_chars (suc n) String.[] = String.[]
drop_chars (suc n) (String.◌∷◌ c s) = drop_chars n s

-- The second part of `str::split_once`: what follows the first place of the pattern.
abbrev pub after_first : List ℕ → String → Option String
after_first pattern String.[] = if starts_with pattern [] then some String.[] else none
after_first pattern (String.◌∷◌ c s) =
    let rest = after_first pattern s in
    if starts_with pattern (codes (String.◌∷◌ c s))
    then some (drop_chars (length pattern) (String.◌∷◌ c s))
    else rest

-- A text in front of the others, unless it is empty.
abbrev put : String → List String → List String
put String.[] done = done
put (String.◌∷◌ c s) done = String.◌∷◌ c s ∷ done

-- `str::split_whitespace`, the word so far and the words after it.
abbrev words_from : String → List String × String
words_from String.[] = ([], String.[])
words_from (String.◌∷◌ c s) =
    let (done, word) = words_from s in
    if is_whitespace (code c) then (put word done, String.[]) else (done, String.◌∷◌ c word)

abbrev pub split_whitespace : String → List String
split_whitespace s = let (done, word) = words_from s in put word done

-- `str::lines`: a line feed ends a line, and takes a carriage return before it along.
abbrev drop_return : String → String
drop_return String.[] = String.[]
drop_return (String.◌∷◌ c String.[]) =
    if nat_eq (code c) 13 then String.[] else String.◌∷◌ c String.[]
drop_return (String.◌∷◌ c (String.◌∷◌ e s)) = String.◌∷◌ c (drop_return (String.◌∷◌ e s))

-- The line so far, and the lines after the feed that ends it, if one does.
abbrev all_lines : String × Option (List String) → List String
all_lines (line, none) = put line []
all_lines (line, some others) = drop_return line ∷ others

abbrev split_lines : String → String × Option (List String)
split_lines String.[] = (String.[], none)
split_lines (String.◌∷◌ c s) =
    let rest = split_lines s in
    if nat_eq (code c) 10 then (String.[], some (all_lines rest)) else (String.◌∷◌ c rest.0, rest.1)

abbrev pub lines : String → List String
lines s = all_lines (split_lines s)

-- `[T]::join`.
abbrev pub join : String → List String → String
join sep [] = ""
join sep (x ∷ []) = x
join sep (x ∷ y ∷ xs) = x ++ sep ++ join sep (y ∷ xs)

-- A number in decimal; the fuel is the number, which has not more digits than that.
abbrev digits : List String
digits = "0" ∷ "1" ∷ "2" ∷ "3" ∷ "4" ∷ "5" ∷ "6" ∷ "7" ∷ "8" ∷ "9" ∷ []

abbrev digits_of : ℕ → ℕ → String
digits_of zero n = unwrap_or (get_elem? digits (n % 10)) ""
digits_of (suc fuel) n =
    let rest = digits_of fuel (n / 10) in
    (if ltb n 10 then "" else rest) ++ unwrap_or (get_elem? digits (n % 10)) ""

abbrev pub decimal : ℕ → String
decimal n = digits_of n n

-- The text ends in a slash.
abbrev ends_in_slash : String → Bool
ends_in_slash String.[] = false
ends_in_slash (String.◌∷◌ c String.[]) = nat_eq (code c) 0x2f
ends_in_slash (String.◌∷◌ c (String.◌∷◌ e s)) = ends_in_slash (String.◌∷◌ e s)

-- `Path::join` of paths that are texts: an absolute path stands for itself.
abbrev pub join_path : String → String → String
join_path String.[] part = part
join_path dir part =
    if has_prefix part "/"
    then part
    else if ends_in_slash dir
    then dir ++ part
    else dir ++ "/" ++ part
