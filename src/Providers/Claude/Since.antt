-- ===== src/Providers/Claude/Since.antt =====
-- When the scan of a Claude session log reports a service cap.
use multi_agent_orchestrator.Prelude.{
  ◌≡◌, refl, ap, sym, ◌⊎◌, inl, inr, ◌↔◌, ◌≤◌, ℕ, ltb, true, false, Option, none, some, String,
  List, [], ◌∷◌, arith, Bool-cases, is_some, subst, ◌++◌,
}
use multi_agent_orchestrator.Prelude.Text.{lines}
use multi_agent_orchestrator.Json.{Value}
use multi_agent_orchestrator.Providers.Claude.Caps.{
  CapLibs, is_max_tokens, is_rate_limit, is_429, is_cap_text, entry_signal, timestamp, dated_signal,
  parsed_signal, line_signal, scan_back, tail_service_cap_since, ClaudeJsonlServiceCapSignal,
}

module _ (libs : CapLibs) (since : ℕ) where
  abbrev pub IsCap : Value → Type 0
  IsCap v =
      (is_max_tokens libs v ≡ true)
      ⊎ (is_rate_limit libs v ≡ true)
      ⊎ (is_429 libs v ≡ true)
      ⊎ (is_cap_text libs v ≡ true)

  -- The line is an entry with a timestamp that is not before `since`, and reports a service cap.
  abbrev pub Reports : String → Type 0
  Reports line =
      (v : Value) × (t : ℕ) × (libs.json.from_str line ≡ inr v)
      × (timestamp libs v ≡ some t)
      × (since ≤ t)
      × IsCap v

  entry_signal-IsCap :
      (v : Value) (s : ClaudeJsonlServiceCapSignal) → entry_signal libs v ≡ some s → IsCap v
  unfolding entry_signal
  entry_signal-IsCap v s e = ground arith

  IsCap-entry_signal : (v : Value) → IsCap v → is_some (entry_signal libs v) ≡ true
  unfolding entry_signal
  IsCap-entry_signal v cap = ground arith

  dated_signal-since :
      (o : Option ℕ) (v : Value) (s : ClaudeJsonlServiceCapSignal)
      → dated_signal libs since o v ≡ some s
      → (t : ℕ) × (o ≡ some t) × (since ≤ t) × IsCap v
  dated_signal-since none v s e = cc
  dated_signal-since (some t) v s e =
      let late : ltb t since ≡ false = ground arith in
      (t, refl, ground arith, entry_signal-IsCap v s (ground arith))

  parsed_signal-since :
      (parsed : String ⊎ Value) (s : ClaudeJsonlServiceCapSignal)
      → parsed_signal libs since parsed ≡ some s
      → (v : Value) × (t : ℕ) × (parsed ≡ inr v)
        × (timestamp libs v ≡ some t)
        × (since ≤ t)
        × IsCap v
  parsed_signal-since (inl x) s e = cc
  parsed_signal-since (inr v) s e =
      let (t, dated, late, cap) = dated_signal-since (timestamp libs v) v s e in
      (v, t, refl, dated, late, cap)

  Reports-line_signal :
      (line : String) → Reports line → is_some (line_signal libs since line) ≡ true
  unfolding line_signal
  Reports-line_signal line (v, t, parsed, dated, late, cap) =
      let found = IsCap-entry_signal v cap in
      let not_before : ltb t since ≡ false = ground arith in rw (parsed, dated, not_before) found

  line_signal-Reports :
      (line : String) → is_some (line_signal libs since line) ≡ true → Reports line
  unfolding line_signal
  line_signal-Reports line e = of_signal (parsed_signal libs since (libs.json.from_str line)) refl e
    where
      of_signal :
          (o : Option ClaudeJsonlServiceCapSignal)
          → parsed_signal libs since (libs.json.from_str line) ≡ o
          → is_some o ≡ true
          → Reports line
      of_signal none f e = cc
      of_signal (some s) f e = parsed_signal-since (libs.json.from_str line) s f

  abbrev pub Reported : List String → Type 0
  Reported ls =
      (before : List String) × (line : String) × (after : List String) × (ls
        ≡ before ++ line ∷ after)
      × Reports line

  scan_back-Reported : (ls : List String) → is_some (scan_back libs since ls) ≡ true → Reported ls
  unfolding scan_back
  scan_back-Reported [] e = cc
  scan_back-Reported (line ∷ ls) e = elim (Bool-cases (is_some (scan_back libs since ls))) [
    | inl h ↦
        let (before, found, after, split, reports) = scan_back-Reported ls h in
        (line ∷ before, found, after, ap (λ xs. line ∷ xs) split, reports)
    | inr h ↦ ([], line, ls, refl, line_signal-Reports line (ground arith))
  ]

  reached :
      (before : List String) (line : String) (after : List String)
      → Reports line
      → is_some (scan_back libs since (before ++ line ∷ after)) ≡ true
  unfolding scan_back
  reached [] line after reports = let found = Reports-line_signal line reports in ground arith
  reached (b ∷ before) line after reports =
      let found = reached before line after reports in ground arith

-- The scan of a log's tail gives a signal exactly when a line of it is an entry that is dated at or
-- after the dispatch and reports a service cap; older entries and lines that are not JSON play no
-- part.
pub tail_service_cap_since_iff :
    (libs : CapLibs) (tail : String) (since : ℕ)
    → (is_some (tail_service_cap_since libs tail since) ≡ true) ↔ Reported libs since (lines tail)
unfolding tail_service_cap_since
tail_service_cap_since_iff libs tail since = (
  scan_back-Reported libs since (lines tail),
  λ (before, line, after, split, reports).
      subst (λ ls. is_some (scan_back libs since ls) ≡ true) (sym split)
        (reached libs since before line after reports),
)
