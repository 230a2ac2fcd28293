-- ===== src/Strings.antt =====
-- The operations of Rust's `str` and `char` that the sources call, on text as a list of scalar
-- values. Case conversion beyond ASCII and the reading of an `f64` are the standard library's
-- tables and stand in `Platform`, with the `{:?}` of an `Option<&str>`.
use arona_os.Prelude.{
  ℕ, ◌+◌, ◌-◌, ◌*◌, Text, F64, text_eq, Bool, false, ◌&&◌, ◌||◌, List, [], ◌∷◌, Option, none, some,
  ltb, leb, nat_eq, if◌then◌else◌,
}
use mathlib.Core.List.{reverse}

pub record Platform : Type 0 where
  pub to_uppercase : Text → Text
  pub parse_f64 : Text → Option F64
  pub show_f64 : F64 → Text
  pub debug_field : Option Text → Text

-- `char::is_whitespace`: the scalar values with the property White_Space.
unfoldable pub is_whitespace : ℕ → Bool
is_whitespace c =
    (leb 9 c && leb c 13)
    || (nat_eq c 32
        || (nat_eq c 0x85
            || (nat_eq c 0xa0
                || (nat_eq c 0x1680
                    || ((leb 0x2000 c && leb c 0x200a)
                        || (nat_eq c 0x2028
                            || (nat_eq c 0x2029
                                || (nat_eq c 0x202f || (nat_eq c 0x205f || nat_eq c 0x3000)))))))))

unfoldable pub trim_start_matches : (ℕ → Bool) → Text → Text
trim_start_matches p [] = []
trim_start_matches p (c ∷ cs) = if p c then trim_start_matches p cs else c ∷ cs

-- `trim_matches` with a predicate.
unfoldable pub trim_matches : (ℕ → Bool) → Text → Text
unfolding trim_start_matches
trim_matches p s = reverse (trim_start_matches p (reverse (trim_start_matches p s)))

unfoldable pub trim : Text → Text
unfolding trim_matches is_whitespace
trim s = trim_matches is_whitespace s

-- `split_once` at the first occurrence of a character.
unfoldable pub split_once : ℕ → Text → Option (Text × Text)
split_once d [] = none
split_once d (c ∷ cs) =
    let rest = split_once d cs in
    if nat_eq c d then some ([], cs) else elim rest [ none ↦ none | some (a, b) ↦ some (c ∷ a, b) ]

abbrev push_front : ℕ → List Text → List Text
push_front c [] = (c ∷ []) ∷ []
push_front c (l ∷ ls) = (c ∷ l) ∷ ls

abbrev begins_line_end : Text → Bool
begins_line_end [] = false
begins_line_end (c ∷ cs) = nat_eq c 10

-- `lines`: a line ends at "\n" or "\r\n", and an end at the end of the text opens no further line.
unfoldable pub lines : Text → List Text
lines [] = []
lines (c ∷ cs) =
    let rest = lines cs in
    if nat_eq c 10
    then [] ∷ rest
    else if nat_eq c 13 && begins_line_end cs
    then rest
    else push_front c rest

-- `split_whitespace`, with the word that is being read.
unfoldable pub words_from : Text → Text → List Text
words_from [] [] = []
words_from (w ∷ word) [] = reverse (w ∷ word) ∷ []
words_from [] (c ∷ cs) = words_from (if is_whitespace c then [] else c ∷ []) cs
words_from (w ∷ word) (c ∷ cs) =
    let rest = words_from [] cs in
    let on = words_from (c ∷ w ∷ word) cs in
    if is_whitespace c then reverse (w ∷ word) ∷ rest else on

unfoldable pub split_whitespace : Text → List Text
unfolding words_from is_whitespace
split_whitespace s = words_from [] s

unfoldable pub strip_prefix : Text → Text → Option Text
strip_prefix [] s = some s
strip_prefix (p ∷ ps) [] = none
strip_prefix (p ∷ ps) (c ∷ cs) = if nat_eq p c then strip_prefix ps cs else none

unfoldable pub digits_value : ℕ → ℕ → Text → Option ℕ
digits_value limit v [] = some v
digits_value limit v (c ∷ cs) =
    let v' = v * 10 + (c - 48) in
    if (leb 48 c && leb c 57) && ltb v' limit then digits_value limit v' cs else none

abbrev drop_plus : Text → Text
drop_plus [] = []
drop_plus (c ∷ cs) = if nat_eq c 43 then cs else c ∷ cs

-- `str::parse` of an unsigned integer below `limit`: an optional plus, then digits, at least one.
unfoldable pub parse_unsigned : ℕ → Text → Option ℕ
unfolding digits_value
parse_unsigned limit s = elim (drop_plus s) [ [] ↦ none | c ∷ cs ↦ digits_value limit 0 (c ∷ cs) ]

-- A `HashMap` collected from pairs holds the last value of each key.
unfoldable pub last_value : Text → List (Text × Text) → Option Text
last_value k [] = none
last_value k ((j, v) ∷ rest) = elim (last_value k rest) [
  | some w ↦ some w
  | none ↦ if text_eq j k then some v else none
]
