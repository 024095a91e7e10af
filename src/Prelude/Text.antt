-- ===== src/Prelude/Text.antt =====
-- `str` methods that the program uses, over the code points of the native texts.
use Prim.Native.Char.{code}
use Prim.Native.String
use Prim.Native.Nat.{ℕ, zero, suc, ◌-◌, compare, Ordering}
use Prim.Native.String.{String, [], ◌∷◌}
use mathlib.Core.Bool.{Bool, true, false, ◌&&◌, ◌||◌}
use mathlib.Core.Option.{Option, none, some}
use mathlib.Core.List.{List}
use multi_agent_orchestrator.Prelude.Tests.{ltb, leb, ◌==◌, if◌then◌else◌}

-- The White_Space property, which `str::trim` and `char::is_whitespace` go by.
unfoldable pub is_whitespace : ℕ → Bool
is_whitespace c =
    (leb 9 c && leb c 13)
    || c == 32
    || c == 0x85
    || c == 0xA0
    || c == 0x1680
    || (leb 0x2000 c && leb c 0x200A)
    || c == 0x2028
    || c == 0x2029
    || c == 0x202F
    || c == 0x205F
    || c == 0x3000

unfoldable pub is_blank : String → Bool
unfolding is_whitespace
is_blank [] = true
is_blank (c ∷ s) = is_whitespace (code c) && is_blank s

unfoldable pub trim_start : String → String
unfolding is_whitespace
trim_start [] = []
trim_start (c ∷ s) = let rest = trim_start s in if is_whitespace (code c) then rest else c ∷ s

unfoldable pub trim_end : String → String
unfolding is_blank
trim_end [] = []
trim_end (c ∷ s) = let rest = trim_end s in if is_blank (c ∷ s) then [] else c ∷ rest

unfoldable pub trim : String → String
unfolding trim_start trim_end
trim s = trim_end (trim_start s)

abbrev pub is_empty_text : String → Bool
is_empty_text [] = true
is_empty_text (c ∷ s) = false

-- `lines()`: a line ends at "\n" or "\r\n", and a last line that is empty is left out.
unfoldable pub strip_cr : String → String
strip_cr [] = []
strip_cr (c ∷ []) = if code c == 13 then [] else c ∷ []
strip_cr (c ∷ d ∷ s) = c ∷ strip_cr (d ∷ s)

unfoldable pub lines_from : String → String → List String
unfolding strip_cr
lines_from [] [] = List.[]
lines_from (a ∷ cur) [] = List.◌∷◌ (a ∷ cur) List.[]
lines_from cur (c ∷ s) =
    let ended = List.◌∷◌ (strip_cr cur) (lines_from [] s) in
    let longer = lines_from (String.◌++◌ cur (c ∷ [])) s in if code c == 10 then ended else longer

unfoldable pub lines : String → List String
unfolding lines_from
lines s = lines_from [] s

-- `starts_with` and `contains`
unfoldable pub starts_with : String → String → Bool
starts_with s [] = true
starts_with [] (p ∷ ps) = false
starts_with (c ∷ s) (p ∷ ps) = code c == code p && starts_with s ps

unfoldable pub contains : String → String → Bool
unfolding starts_with
contains [] p = starts_with [] p
contains (c ∷ s) p = starts_with (c ∷ s) p || contains s p

-- The order of texts is that of their UTF-8 bytes, which is that of their code points.
unfoldable pub compare_text : String → String → Ordering
compare_text [] [] = Ordering.eq
compare_text [] (d ∷ t) = Ordering.lt
compare_text (c ∷ s) [] = Ordering.gt
compare_text (c ∷ s) (d ∷ t) = elim (compare (code c) (code d)) [
  | Ordering.lt ↦ Ordering.lt
  | Ordering.gt ↦ Ordering.gt
  | Ordering.eq ↦ compare_text s t
]

-- The bytes of a character in UTF-8.
unfoldable pub utf8_len : ℕ → ℕ
utf8_len c = if ltb c 0x80 then 1 else if ltb c 0x800 then 2 else if ltb c 0x10000 then 3 else 4

-- `s.len()`
unfoldable pub byte_len : String → ℕ
unfolding utf8_len
byte_len [] = 0
byte_len (c ∷ s) = Prim.Native.Nat.◌+◌ (utf8_len (code c)) (byte_len s)

-- `&s[n..]`; `none` where the slice panics, off a character boundary or past the end.
unfoldable pub drop_bytes : ℕ → String → Option String
unfolding utf8_len
drop_bytes zero s = some s
drop_bytes (suc n) [] = none
drop_bytes (suc n) (c ∷ s) =
    let rest = drop_bytes (suc n - utf8_len (code c)) s in
    if leb (utf8_len (code c)) (suc n) then rest else none

-- `split_whitespace()`
words_from : String → String → List String
words_from [] [] = List.[]
words_from (a ∷ cur) [] = List.◌∷◌ (a ∷ cur) List.[]
words_from [] (c ∷ s) =
    let skipped = words_from [] s in
    let started = words_from (c ∷ []) s in if is_whitespace (code c) then skipped else started
words_from (a ∷ cur) (c ∷ s) =
    let ended = List.◌∷◌ (a ∷ cur) (words_from [] s) in
    let longer = words_from (String.◌++◌ (a ∷ cur) (c ∷ [])) s in
    if is_whitespace (code c) then ended else longer

unfoldable pub split_whitespace : String → List String
unfolding words_from is_whitespace
split_whitespace s = words_from [] s

-- `split_whitespace().next().unwrap_or("")`
unfoldable pub first_word : String → String
unfolding split_whitespace
first_word s = elim (split_whitespace s) [ List.[] ↦ [] | List.◌∷◌ w ws ↦ w ]
