-- ===== src/Forwarder/Text.antt =====
-- The text functions of Rust's library that src/client/forwarder.rs uses on a request: `from_utf8_lossy`,
-- `lines`, `split_whitespace` and `trim`.
use tls_tunnel.Prelude.{
  ℕ, zero, suc, Bool, true, false, ◌&&◌, ◌||◌, none, some, List, [], ◌∷◌, ◌++◌, Str, leb,
  if◌then◌else◌, ◌==◌, nat_eq,
}
use tls_tunnel.Visitor.Wire.{Expect, character, tail, next}

-- U+FFFD
abbrev pub replacement : Str
replacement = 0xEF ∷ 0xBF ∷ 0xBD ∷ []

-- A character that is begun and not finished is replaced as a whole.
abbrev pub give_up : Str → Str
give_up [] = []
give_up (c ∷ pending) = replacement

abbrev pub ends_character : Expect → Bool
ends_character character = true
ends_character (tail low high more) = false

unfoldable pub lossy_from : Expect → Str → Str → Str
lossy_from e pending [] = give_up pending
lossy_from e pending (c ∷ s) =
    let fresh = lossy_from character [] s in
    elim (next e c) [
      | some character ↦ pending ++ c ∷ fresh
      | some (tail low high more) ↦ lossy_from (tail low high more) (pending ++ c ∷ []) s
      | none ↦ elim (next character c) [
        | none ↦ give_up pending ++ (replacement ++ fresh)
        | some character ↦ replacement ++ c ∷ fresh
        | some (tail low high more) ↦ give_up pending ++ lossy_from (tail low high more) (c ∷ []) s
      ]
    ]

-- `String::from_utf8_lossy`
abbrev pub from_utf8_lossy : Str → Str
from_utf8_lossy s = lossy_from character [] s

abbrev pub strip_return : Str → Str
strip_return [] = []
strip_return (c ∷ []) = if c == 13 then [] else c ∷ []
strip_return (c ∷ d ∷ s) = c ∷ strip_return (d ∷ s)

-- `str::lines`: the line read so far, then the rest.
unfoldable pub lines_from : Str → Str → List Str
lines_from [] [] = []
lines_from (c ∷ line) [] = (c ∷ line) ∷ []
lines_from line (c ∷ s) =
    let next_line = lines_from [] s in
    let same_line = lines_from (line ++ c ∷ []) s in
    if c == 10 then strip_return line ∷ next_line else same_line

abbrev pub lines : Str → List Str
lines s = lines_from [] s

-- How many bytes the white space character at the front has, 0 if there is none.
unfoldable pub space_width : Str → ℕ
space_width (a ∷ b ∷ c ∷ s) =
    if (leb 9 a && leb a 13) || a == 32
    then 1
    else if a == 0xC2 && (b == 0x85 || b == 0xA0)
    then 2
    else if (a == 0xE1 && b == 0x9A && c == 0x80)
        || (a == 0xE2
            && b == 0x80
            && ((leb 0x80 c && leb c 0x8A) || c == 0xA8 || c == 0xA9 || c == 0xAF))
        || (a == 0xE2 && b == 0x81 && c == 0x9F)
        || (a == 0xE3 && b == 0x80 && c == 0x80)
    then 3
    else 0
space_width (a ∷ b ∷ []) =
    if (leb 9 a && leb a 13) || a == 32
    then 1
    else if a == 0xC2 && (b == 0x85 || b == 0xA0)
    then 2
    else 0
space_width (a ∷ []) = if (leb 9 a && leb a 13) || a == 32 then 1 else 0
space_width [] = 0

abbrev pub end_word : Str → List Str → List Str
end_word [] words = words
end_word (c ∷ word) words = (c ∷ word) ∷ words

-- The words, behind the word read so far and a number of bytes of white space to skip.
unfoldable pub words_from : ℕ → Str → Str → List Str
unfolding space_width
words_from skip word [] = end_word word []
words_from (suc skip) word (c ∷ s) = words_from skip word s
words_from zero word (c ∷ s) =
    let longer = words_from 0 (word ++ c ∷ []) s in
    elim (space_width (c ∷ s)) [ zero ↦ longer | suc more ↦ end_word word (words_from more [] s) ]

-- `str::split_whitespace`
abbrev pub split_whitespace : Str → List Str
split_whitespace s = words_from 0 [] s

-- `str::trim`: leading white space is skipped, and what ends a text is kept back until more follows.
unfoldable pub trim_end_from : ℕ → Str → Str → Str
unfolding space_width
trim_end_from skip spaces [] = []
trim_end_from (suc skip) spaces (c ∷ s) = trim_end_from skip (spaces ++ c ∷ []) s
trim_end_from zero spaces (c ∷ s) =
    let solid = spaces ++ c ∷ trim_end_from 0 [] s in
    elim (space_width (c ∷ s)) [ zero ↦ solid | suc more ↦ trim_end_from more (spaces ++ c ∷ []) s ]

unfoldable pub trim_start_from : ℕ → Str → Str
unfolding space_width
trim_start_from skip [] = []
trim_start_from (suc skip) (c ∷ s) = trim_start_from skip s
trim_start_from zero (c ∷ s) = elim (space_width (c ∷ s)) [
  | zero ↦ c ∷ s
  | suc more ↦ trim_start_from more s
]

abbrev pub trim : Str → Str
trim s = trim_end_from 0 [] (trim_start_from 0 s)
