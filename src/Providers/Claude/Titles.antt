-- ===== src/Providers/Claude/Titles.antt =====
-- The effective title of a Claude session log, read off the lines of each kind.
use multi_agent_orchestrator.Prelude.{
  ◌≡◌, refl, ap, sym, subst, ◌∙◌, ◌⊎◌, inl, inr, Bool, true, false, ◌||◌, Option, none, some,
  String, List, [], ◌∷◌, str_eq, eq_iff, arith, if◌then◌else◌, or_else, unwrap_or,
}
use multi_agent_orchestrator.Prelude.Text.{trim, lines, is_empty_text}
use multi_agent_orchestrator.Errors.{ok, ◌>>=◌}
use multi_agent_orchestrator.Json.{Value, JsonLib, get_str}
use multi_agent_orchestrator.Files.{Files, IoResult, done, failed, try_io}
use multi_agent_orchestrator.Providers.Claude.{
  Titles, note_title, all_zero, note_parsed, note_line, title_loop, effective,
  claude_effective_title,
}

-- The title that a value of the given type sets, which may be none.
abbrev title_of_type : String → String → Option String → Value → Option (Option String)
title_of_type kind key none obj = none
title_of_type kind key (some t) obj = if str_eq t kind then some (get_str obj key) else none

abbrev title_of_parsed : String → String → String ⊎ Value → Option (Option String)
title_of_parsed kind key (inl e) = none
title_of_parsed kind key (inr obj) = title_of_type kind key (get_str obj "type") obj

module _ (lib : JsonLib) where
  abbrev title_of_line : String → String → String → Option (Option String)
  title_of_line kind key line =
      if is_empty_text (trim line) || all_zero line
      then none
      else title_of_parsed kind key (lib.from_str line)

  -- What the last line of the given type sets.
  abbrev pub last_title : String → String → List String → Option (Option String)
  last_title kind key [] = none
  last_title kind key (line ∷ ls) = or_else (last_title kind key ls) (title_of_line kind key line)

  note_title-titles :
      (t : Option String) (obj : Value) (custom agent : Option String)
      → note_title t obj (custom, agent) ≡ (
        unwrap_or custom (title_of_type "custom-title" "customTitle" t obj),
        unwrap_or agent (title_of_type "agent-name" "agentName" t obj),
      )
  note_title-titles none obj custom agent = refl
  note_title-titles (some t) obj custom agent =
      either (str_eq t "custom-title") (str_eq t "agent-name")
        λ h. subst (λ u. str_eq u "agent-name" ≡ false) (sym ((eq_iff t "custom-title").0 h)) refl
    where
      either :
          (a b : Bool)
          → (a ≡ true → b ≡ false)
          → Path Titles
              (if a
                then (get_str obj "customTitle", agent)
                else if b
                then (custom, get_str obj "agentName")
                else (custom, agent))
              (
                unwrap_or custom (if a then some (get_str obj "customTitle") else none),
                unwrap_or agent (if b then some (get_str obj "agentName") else none),
              )
      either false false apart = refl
      either false true apart = refl
      either true false apart = refl
      either true true apart = let e = apart refl in cc

  line-titles :
      (skip : Bool) (parsed : String ⊎ Value) (custom agent : Option String)
      → (if skip then (custom, agent) else note_parsed lib parsed (custom, agent)) ≡ (
        unwrap_or custom
            (if skip then none else title_of_parsed "custom-title" "customTitle" parsed),
        unwrap_or agent (if skip then none else title_of_parsed "agent-name" "agentName" parsed),
      )
  line-titles true parsed custom agent = refl
  line-titles false (inl e) custom agent = refl
  line-titles false (inr obj) custom agent = note_title-titles (get_str obj "type") obj custom agent

  note_line-titles :
      (line : String) (custom agent : Option String)
      → note_line lib line (custom, agent) ≡ (
        unwrap_or custom (title_of_line "custom-title" "customTitle" line),
        unwrap_or agent (title_of_line "agent-name" "agentName" line),
      )
  unfolding note_line
  note_line-titles line custom agent =
      line-titles (is_empty_text (trim line) || all_zero line) (lib.from_str line) custom agent

  unwrap-or_else :
      (d : Option String) (later here : Option (Option String))
      → unwrap_or (unwrap_or d here) later ≡ unwrap_or d (or_else later here)
  unwrap-or_else d none here = refl
  unwrap-or_else d (some t) here = refl

  title_loop-last :
      (ls : List String) (custom agent : Option String)
      → title_loop lib ls (custom, agent) ≡ (
        unwrap_or custom (last_title "custom-title" "customTitle" ls),
        unwrap_or agent (last_title "agent-name" "agentName" ls),
      )
  unfolding title_loop
  title_loop-last [] custom agent = refl
  title_loop-last (line ∷ ls) custom agent =
      let custom' = title_of_line "custom-title" "customTitle" line in
      let agent' = title_of_line "agent-name" "agentName" line in
      ap (title_loop lib ls) (note_line-titles line custom agent)
      ∙ title_loop-last ls (unwrap_or custom custom') (unwrap_or agent agent')
      ∙ ground (
        arith,
        unwrap-or_else custom (last_title "custom-title" "customTitle" ls) custom',
        unwrap-or_else agent (last_title "agent-name" "agentName" ls) agent',
      )

-- The last line of a type, and what it sets: none where there is no such line or it sets no text.
abbrev pub title_in : JsonLib → String → String → String → Option String
title_in lib kind key content = unwrap_or none (last_title lib kind key (lines content))

-- The title of a log is the custom title of the last line of that type, and where that line sets
-- none, or there is none, the agent's name of the last line of that type.
pub claude_effective_title-last :
    (lib : JsonLib) (files : Files) (path : String)
    → claude_effective_title lib files path ≡ (
        try_io (files.read_to_string path) >>= λ content. ok (
          or_else
            (title_in lib "custom-title" "customTitle" content)
            (title_in lib "agent-name" "agentName" content)))
unfolding claude_effective_title
claude_effective_title-last lib files path = of_read (files.read_to_string path)
  where
    of_read :
        (r : IoResult String)
        → (try_io r >>= λ content. ok (effective lib (title_loop lib (lines content) (none, none))))
          ≡ (try_io r >>= λ content. ok (
              or_else
                (title_in lib "custom-title" "customTitle" content)
                (title_in lib "agent-name" "agentName" content)))
    of_read (done content) =
        ap (λ titles. ok (effective lib titles)) (title_loop-last lib (lines content) none none)
    of_read (failed kind source) = refl
