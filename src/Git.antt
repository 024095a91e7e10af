-- ===== src/Git.antt =====
-- The text that git prints: the line sets and paths that src/orchestrator/monitor.rs and phases.rs
-- read from it.
use Prim.Native.Char.{code}
use Prim.Native.Nat.{Ordering}
use multi_agent_orchestrator.Prelude.{
  ℕ, zero, suc, ◌==◌, leb, Bool, true, not, ◌&&◌, Option, none, some, String, List, [], ◌∷◌,
  filter_by, any, map, str_eq, if◌then◌else◌, map_option, unwrap_or,
}
use multi_agent_orchestrator.Prelude.Show.{format}
use multi_agent_orchestrator.Prelude.Text.{
  trim, trim_end, lines, is_empty_text, compare_text, starts_with, drop_bytes, byte_len,
  split_whitespace,
}

-- `BTreeSet<String>`: the items in order, each once.
unfoldable pub btree_insert : String → List String → List String
btree_insert s [] = s ∷ []
btree_insert s (t ∷ ts) = elim (compare_text s t) [
  | Ordering.lt ↦ s ∷ t ∷ ts
  | Ordering.eq ↦ t ∷ ts
  | Ordering.gt ↦ t ∷ btree_insert s ts
]

unfoldable pub collect_set : List String → List String
collect_set [] = []
collect_set (s ∷ ss) = btree_insert s (collect_set ss)

abbrev pub has_text : String → Bool
has_text line = not (is_empty_text (trim line))

-- phases.rs, `git_status_line_set`
unfoldable pub status_lines : String → List String
status_lines raw = collect_set (filter_by has_text (lines raw))

-- monitor.rs, `git_status_lines` and `git_name_status_lines`
unfoldable pub trimmed_lines : String → List String
trimmed_lines raw = collect_set (filter_by has_text (map trim_end (lines raw)))

-- `rsplit_once(sep)`, the part behind the last separator.
drop_chars : ℕ → String → String
drop_chars zero s = s
drop_chars (suc n) String.[] = String.[]
drop_chars (suc n) (String.◌∷◌ c s) = drop_chars n s

unfoldable pub after_last : String → ℕ → String → Option String
unfolding drop_chars
after_last sep len String.[] = none
after_last sep len (String.◌∷◌ c s) =
    let here =
      if starts_with (String.◌∷◌ c s) sep then some (drop_chars len (String.◌∷◌ c s)) else none in
    elim (after_last sep len s) [ some r ↦ some r | none ↦ here ]

-- `split_once(' ')`
unfoldable pub split_space : String → Option (String × String)
split_space String.[] = none
split_space (String.◌∷◌ c s) =
    let rest = split_space s in
    if code c == 32
    then some (String.[], s)
    else elim rest [ none ↦ none | some (a, b) ↦ some (String.◌∷◌ c a, b) ]

-- `b.is_ascii_graphic()` of every byte
unfoldable pub all_graphic : String → Bool
all_graphic String.[] = true
all_graphic (String.◌∷◌ c s) = leb 33 (code c) && leb (code c) 126 && all_graphic s

-- The line behind the status columns: `line[3..]` where the third byte is a space.
behind_columns : String → Option String
behind_columns line = elim (drop_bytes 2 line) [
  | none ↦ none
  | some String.[] ↦ none
  | some (String.◌∷◌ c s) ↦ if code c == 32 then some s else none
]

behind_status : String → String
behind_status line = elim (split_space line) [
  | none ↦ line
  | some (status, path) ↦ if leb (byte_len status) 2 && all_graphic status then path else line
]

abbrev non_empty : String → Option String
non_empty s = if is_empty_text s then none else some s

unfoldable pub parse_git_status_path : String → Option String
unfolding behind_columns behind_status
parse_git_status_path raw =
    let line = trim_end raw in
    let rest = trim (unwrap_or (behind_status line) (behind_columns line)) in
    let renamed = map_option trim (after_last " -> " 4 rest) in
    if is_empty_text (trim line)
    then none
    else if is_empty_text rest
    then none
    else some (unwrap_or rest renamed)

-- `split('\t')`
split_tabs : String → String → List String
split_tabs cur String.[] = cur ∷ []
split_tabs cur (String.◌∷◌ c s) =
    let ended = cur ∷ split_tabs String.[] s in
    let longer = split_tabs (format (cur ∷ String.◌∷◌ c String.[] ∷ [])) s in
    if code c == 9 then ended else longer

last_of : String → List String → String
last_of d [] = d
last_of d (s ∷ ss) = last_of s ss

-- With no tab: the last of two or more words, or the line's only word.
without_tabs : String → List String → Option String
without_tabs first (a ∷ b ∷ ws) = some (trim (last_of b ws))
without_tabs first _ = non_empty first

of_parts : String → List String → Option String
unfolding last_of without_tabs
of_parts line [] = none
of_parts line (first ∷ []) = without_tabs (trim first) (split_whitespace line)
of_parts line (first ∷ part ∷ parts) = some (trim (last_of part parts))

unfoldable pub parse_git_name_status_path : String → Option String
unfolding split_tabs of_parts
parse_git_name_status_path raw =
    let line = trim_end raw in
    if is_empty_text (trim line) then none else of_parts line (split_tabs String.[] line)

-- `a.difference(&b)`
unfoldable pub difference : List String → List String → List String
difference xs ys = filter_by (λ x. not (any (λ y. str_eq y x) ys)) xs

-- `filter_map(f)`
unfoldable pub filter_map : (String → Option String) → List String → List String
filter_map f [] = []
filter_map f (x ∷ xs) = elim (f x) [ none ↦ filter_map f xs | some y ↦ y ∷ filter_map f xs ]
