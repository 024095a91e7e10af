-- ===== src/Monitor/Actions/Bounds.antt =====
-- The length of the action that the monitor keeps of a provider.
use multi_agent_orchestrator.Prelude.{
  ◌≡◌, refl, ap, sym, ◌∙◌, subst, ◌⊎◌, inl, inr, ℕ, zero, suc, ◌+◌, ◌-◌, ◌≤◌, ltb, leb, Bool, true,
  false, Option, none, some, String, List, [], ◌∷◌, any, take, arith, if◌then◌else◌, and_then,
  or_else, map_option, Bool-cases,
}
use Prim.Native.Char.{Char, code}
use Prim.Native.String
use text.Mathlib.TextLemmas.{cons-append, nil-append}
use multi_agent_orchestrator.Prelude.Show.{format, join}
use multi_agent_orchestrator.Prelude.Text.{
  trim, lines, starts_with, byte_len, utf8_len, split_whitespace, is_empty_text,
}
use multi_agent_orchestrator.Json.{Value, JsonLib, pointer, as_str}
use multi_agent_orchestrator.Monitor.Actions.{
  byte_prefix, cut_below, truncate_at_char_boundary, max_action_bytes, shortened,
  newlines_to_spaces, normalize_provider_action, action_at, extract_action_from_json_line,
  extract_action_from_plain_line, first_action, extract_provider_action_tail, reverse_onto,
  action_of_value, command_paths, event_paths, event_type, is_command_event, command_prefixes,
}

byte_len_empty : byte_len String.[] ≡ 0
unfolding byte_len
byte_len_empty = refl

byte_len-cons : (c : Char) (s : String) → byte_len (String.◌∷◌ c s) ≡ utf8_len (code c) + byte_len s
unfolding byte_len
byte_len-cons c s = refl

some_inj : {s t : String} → some s ≡ some t → s ≡ t
some_inj e = cc

prefix_step :
    (c : Char) (n : ℕ) (b : Bool) (o : Option String) (p : String)
    → leb (utf8_len (code c)) n ≡ b
    → ((q : String) → o ≡ some q → byte_len q ≡ n - utf8_len (code c))
    → (if b then map_option (λ q. String.◌∷◌ c q) o else none) ≡ some p
    → byte_len p ≡ n
unfolding byte_len
prefix_step c n false o p fits ih e = cc
prefix_step c n true none p fits ih e = cc
prefix_step c n true (some q) p fits ih e =
    let rest = ih q refl in subst (λ t. byte_len t ≡ n) (some_inj e) (ground arith)

-- A prefix of `n` bytes has `n` bytes.
byte_len-byte_prefix : (n : ℕ) (s p : String) → byte_prefix n s ≡ some p → byte_len p ≡ n
unfolding byte_prefix
byte_len-byte_prefix zero s p e = subst (λ t. byte_len t ≡ 0) (some_inj e) byte_len_empty
byte_len-byte_prefix (suc n) String.[] p e = cc
byte_len-byte_prefix (suc n) (String.◌∷◌ c s) p e =
    prefix_step c (suc n) (leb (utf8_len (code c)) (suc n))
      (byte_prefix (suc n - utf8_len (code c)) s) p refl
      (byte_len-byte_prefix (suc n - utf8_len (code c)) s) e

byte_len-cut_below : (n : ℕ) (s : String) → byte_len (cut_below n s) ≤ n
unfolding cut_below
byte_len-cut_below zero s = subst (λ k. k ≤ 0) (sym byte_len_empty) (omega arith)
byte_len-cut_below (suc n) s =
    by_prefix (byte_prefix (suc n) s) (byte_len-byte_prefix (suc n) s) (byte_len-cut_below n s)
  where
    by_prefix :
        (o : Option String)
        → ((p : String) → o ≡ some p → byte_len p ≡ suc n)
        → byte_len (cut_below n s) ≤ n
        → byte_len (elim o [ some p ↦ p | none ↦ cut_below n s ]) ≤ suc n
    by_prefix none h below = omega arith
    by_prefix (some p) h below = let e = h p refl in omega arith

byte_len-append : (s t : String) → byte_len (String.◌++◌ s t) ≡ byte_len s + byte_len t
byte_len-append String.[] t =
    ap byte_len (nil-append t)
    ∙ subst (λ k. byte_len t ≡ k + byte_len t) (sym byte_len_empty) (omega arith)
byte_len-append (String.◌∷◌ c s) t =
    ap byte_len (cons-append c s t)
    ∙ byte_len-cons c (String.◌++◌ s t)
    ∙ omega (arith, byte_len-append s t, byte_len-cons c s)

byte_len-truncate : (s : String) (n : ℕ) → byte_len (truncate_at_char_boundary s n) ≤ n
unfolding truncate_at_char_boundary
byte_len-truncate s n = elim (Bool-cases (leb (byte_len s) n)) [
  | inl h ↦ rw h (ground arith)
  | inr h ↦ rw h (byte_len-cut_below n s)
]

byte_len_dots : byte_len (String.◌++◌ "..." "") ≡ 3
unfolding byte_len utf8_len
byte_len_dots = refl

shortened-bounded : (s : String) → byte_len (shortened s) ≤ 223
unfolding format
shortened-bounded s = elim (Bool-cases (ltb max_action_bytes (byte_len s))) [
  | inl h ↦
      rw
        (
          h,
          byte_len-append (truncate_at_char_boundary s max_action_bytes) (String.◌++◌ "..." ""),
          byte_len_dots,
        )
        (omega (arith, byte_len-truncate s max_action_bytes))
  | inr h ↦ rw h (ground arith)
]

-- A line that is kept has at most 223 bytes.
abbrev Short : Option String → Type 0
Short none = Unit
Short (some s) = byte_len s ≤ 223

normalize-Short : (raw : String) → Short (normalize_provider_action raw)
unfolding normalize_provider_action
normalize-Short raw = by_empty (is_empty_text (trim raw))
  where
    by_empty :
        (b : Bool)
        → Short (
            if b
            then none
            else some
                (shortened (trim (join " " (split_whitespace (newlines_to_spaces (trim raw)))))))
    by_empty true = tt
    by_empty false = shortened-bounded _

or_else-Short : (a b : Option String) → Short a → Short b → Short (or_else a b)
or_else-Short none b ha hb = hb
or_else-Short (some s) b ha hb = ha

if-Short : (b : Bool) (a c : Option String) → Short a → Short c → Short (if b then a else c)
if-Short true a c ha hc = ha
if-Short false a c ha hc = hc

and_then-Short : (o : Option String) → Short (and_then o normalize_provider_action)
and_then-Short none = tt
and_then-Short (some s) = normalize-Short s

action_at-Short : (v : Value) (paths : List (List String)) → Short (action_at v paths)
unfolding action_at
action_at-Short v [] = tt
action_at-Short v (path ∷ paths) =
    or_else-Short _ (action_at v paths) (and_then-Short (and_then (pointer v path) as_str))
      (action_at-Short v paths)

module _ (lib : JsonLib) where
  json-Short : (line : String) → Short (extract_action_from_json_line lib line)
  unfolding extract_action_from_json_line
  json-Short line = of_value (lib.from_str line)
    where
      of_value : (r : String ⊎ Value) → Short (action_of_value r)
      of_value (inl e) = tt
      of_value (inr v) =
          or_else-Short (action_at v command_paths)
            (if is_command_event (event_type v) then action_at v event_paths else none)
            (action_at-Short v command_paths)
            (if-Short (is_command_event (event_type v)) (action_at v event_paths) none
              (action_at-Short v event_paths) tt)

  plain-Short : (line : String) → Short (extract_action_from_plain_line line)
  unfolding extract_action_from_plain_line
  plain-Short line =
      let known = any (λ p. starts_with (trim line) p) command_prefixes in
      let action = normalize_provider_action (trim line) in
      if-Short (is_empty_text (trim line)) none (if known then action else none) tt
        (if-Short known action none (normalize-Short (trim line)) tt)

  first-Short : (ls : List String) → Short (first_action lib ls)
  unfolding first_action
  first-Short [] = tt
  first-Short (line ∷ ls) =
      let plain = extract_action_from_plain_line line in
      or_else-Short (extract_action_from_json_line lib line) (or_else plain (first_action lib ls))
        (json-Short line)
        (or_else-Short plain (first_action lib ls) (plain-Short line) (first-Short ls))

  Short-some : (o : Option String) (s : String) → o ≡ some s → Short o → byte_len s ≤ 223
  Short-some o s e h = subst Short e h

  -- The action kept of a provider has at most 223 bytes, whatever its output was: 220 bytes, cut at
  -- a character boundary, and three dots.
  pub extract_provider_action_tail-bounded :
      (stdout stderr action : String)
      → extract_provider_action_tail lib stdout stderr ≡ some action
      → byte_len action ≤ 223
  unfolding extract_provider_action_tail
  extract_provider_action_tail-bounded stdout stderr action e =
      Short-some _ action e
        (first-Short (take 300 (reverse_onto (lines (format (stdout ∷ "\n" ∷ stderr ∷ []))) [])))
