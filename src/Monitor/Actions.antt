-- ===== src/Monitor/Actions.antt =====
-- src/orchestrator/monitor.rs: the last action of a provider, read from the tails of its streams.
pub mod Bounds
use multi_agent_orchestrator.Prelude.{
  ◌⊎◌, inl, inr, ℕ, zero, suc, ◌-◌, ltb, leb, ◌==◌, Bool, true, false, not, ◌||◌, Option, none,
  some, String, List, [], ◌∷◌, ◌++◌, any, take, str_eq, if◌then◌else◌, and_then, or_else, unwrap_or,
  map_option, is_some,
}
use Prim.Native.Char.{code}
use multi_agent_orchestrator.Prelude.Show.{format, join}
use multi_agent_orchestrator.Prelude.Text.{
  trim, lines, starts_with, contains, byte_len, utf8_len, split_whitespace, is_empty_text,
}
use multi_agent_orchestrator.Json.{Value, JsonLib, pointer, as_str}

-- `&s[..n]`, none off a character boundary or past the end.
unfoldable pub byte_prefix : ℕ → String → Option String
byte_prefix zero s = some String.[]
byte_prefix (suc n) String.[] = none
byte_prefix (suc n) (String.◌∷◌ c s) =
    let rest = byte_prefix (suc n - utf8_len (code c)) s in
    if leb (utf8_len (code c)) (suc n) then map_option (λ p. String.◌∷◌ c p) rest else none

-- The loop over `is_char_boundary`, and `truncate` at the boundary that it finds.
unfoldable pub cut_below : ℕ → String → String
cut_below zero s = String.[]
cut_below (suc n) s = elim (byte_prefix (suc n) s) [ some p ↦ p | none ↦ cut_below n s ]

unfoldable pub truncate_at_char_boundary : String → ℕ → String
truncate_at_char_boundary value max_bytes =
    if leb (byte_len value) max_bytes then value else cut_below max_bytes value

-- `replace('\n', " ")`
unfoldable pub newlines_to_spaces : String → String
newlines_to_spaces String.[] = String.[]
newlines_to_spaces (String.◌∷◌ c s) =
    let rest = newlines_to_spaces s in
    if code c == 10 then String.◌∷◌ " " rest else String.◌∷◌ c rest

abbrev pub max_action_bytes : ℕ
max_action_bytes = 220

abbrev pub shortened : String → String
shortened action =
    if ltb max_action_bytes (byte_len action)
    then format (truncate_at_char_boundary action max_action_bytes ∷ "..." ∷ [])
    else action

unfoldable pub normalize_provider_action : String → Option String
normalize_provider_action raw =
    if is_empty_text (trim raw)
    then none
    else some (shortened (trim (join " " (split_whitespace (newlines_to_spaces (trim raw))))))

-- The first path with a text that is an action.
unfoldable pub action_at : Value → List (List String) → Option String
action_at value [] = none
action_at value (path ∷ paths) =
    or_else (and_then (and_then (pointer value path) as_str) normalize_provider_action)
      (action_at value paths)

abbrev pub command_paths : List (List String)
command_paths =
    ("command" ∷ [])
    ∷ ("cmd" ∷ [])
    ∷ ("input" ∷ "command" ∷ [])
    ∷ ("input" ∷ "cmd" ∷ [])
    ∷ ("tool_input" ∷ "command" ∷ [])
    ∷ ("payload" ∷ "command" ∷ [])
    ∷ []

abbrev pub event_paths : List (List String)
event_paths =
    ("event" ∷ "command" ∷ [])
    ∷ ("event" ∷ "input" ∷ "command" ∷ [])
    ∷ ("event" ∷ "tool_input" ∷ "command" ∷ [])
    ∷ []

abbrev pub event_type : Value → String
event_type value = unwrap_or "" (
    or_else (and_then (pointer value ("type" ∷ [])) as_str)
      (and_then (pointer value ("event" ∷ "type" ∷ [])) as_str))

abbrev pub is_command_event : String → Bool
is_command_event t = contains t "command" || contains t "tool" || contains t "exec"

abbrev pub action_of_value : String ⊎ Value → Option String
action_of_value (inl e) = none
action_of_value (inr value) =
    or_else (action_at value command_paths)
      (if is_command_event (event_type value) then action_at value event_paths else none)

abbrev pub command_prefixes : List String
command_prefixes =
    "cargo " ∷ "make " ∷ "notion " ∷ "git " ∷ "rg " ∷ "timeout " ∷ "pytest " ∷ "python " ∷ "bash "
    ∷ "sh " ∷ []

unfoldable pub extract_action_from_plain_line : String → Option String
extract_action_from_plain_line line =
    if is_empty_text (trim line)
    then none
    else if any (λ p. starts_with (trim line) p) command_prefixes
    then normalize_provider_action (trim line)
    else none

abbrev pub reverse_onto : List String → List String → List String
reverse_onto [] acc = acc
reverse_onto (l ∷ ls) acc = reverse_onto ls (l ∷ acc)

module _ (lib : JsonLib) where
  unfoldable pub extract_action_from_json_line : String → Option String
  extract_action_from_json_line line = action_of_value (lib.from_str line)

  unfoldable pub first_action : List String → Option String
  first_action [] = none
  first_action (line ∷ ls) =
      or_else (extract_action_from_json_line line)
        (or_else (extract_action_from_plain_line line) (first_action ls))

  unfoldable pub extract_provider_action_tail : String → String → Option String
  extract_provider_action_tail stdout stderr =
      let combined = format (stdout ∷ "\n" ∷ stderr ∷ []) in
      first_action (take 300 (reverse_onto (lines combined) []))
