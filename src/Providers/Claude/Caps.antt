-- ===== src/Providers/Claude/Caps.antt =====
-- src/providers/claude.rs: the service caps in the tail of a Claude session log.
use multi_agent_orchestrator.Prelude.{
  ◌⊎◌, inl, inr, ℕ, ltb, ◌==◌, Bool, true, false, Option, none, some, String, List, [], ◌∷◌, str_eq,
  if◌then◌else◌, and_then, or_else,
}
use multi_agent_orchestrator.Prelude.Text.{lines}
use multi_agent_orchestrator.State.{service_cap}
use multi_agent_orchestrator.Errors.{Result, ok, ◌>>=◌}
use multi_agent_orchestrator.Signals.{
  RegexLib, ProviderErrorMatch, classify_provider_error_with_match,
}
use multi_agent_orchestrator.Json.{Value, JsonLib, get, get_str, as_str, as_u64, as_bool, pointer}
use multi_agent_orchestrator.Providers.Claude.{home_dir, session_log_path}

abbrev pub max_jsonl_tail_bytes : ℕ
max_jsonl_tail_bytes = 65536

pub record ClaudeJsonlServiceCapSignal : Type 0 where
  pub cap_pattern : String
  pub cap_fragment : String

abbrev pub is_text : Option String → String → Bool
is_text none t = false
is_text (some s) t = str_eq s t

abbrev pub is_number : Option ℕ → ℕ → Bool
is_number none n = false
is_number (some m) n = m == n

abbrev pub is_set : Option Bool → Bool
is_set none = false
is_set (some b) = b

-- `matches!(m.class, ServiceCap)`
abbrev pub is_cap : Option ProviderErrorMatch → Bool
is_cap none = false
is_cap (some m) = elim m.error_class [ service_cap ↦ true | _ ↦ false ]

abbrev signal : String → String → Option ClaudeJsonlServiceCapSignal
signal pattern fragment = some (record { cap_pattern = pattern; cap_fragment = fragment })

-- What is taken from outside: JSON, the regexes and the reading of RFC 3339 times.
pub record CapLibs : Type 0 where
  pub json : JsonLib
  pub regex : RegexLib
  pub parse_from_rfc3339 : String → Option ℕ

module _ (libs : CapLibs) where
  abbrev pub is_max_tokens : Value → Bool
  is_max_tokens v =
      is_text (and_then (pointer v ("message" ∷ "stop_reason" ∷ [])) as_str) "max_tokens"

  abbrev pub is_rate_limit : Value → Bool
  is_rate_limit v = is_text (get_str v "error") "rate_limit"

  abbrev pub is_429 : Value → Bool
  is_429 v = is_number (and_then (get v "apiErrorStatus") as_u64) 429

  abbrev pub is_cap_text : Value → Bool
  is_cap_text v =
      if is_set (and_then (get v "isApiErrorMessage") as_bool)
      then is_cap (classify_provider_error_with_match libs.regex (libs.json.to_string v))
      else false

  -- The four tests of an entry, in their order.
  unfoldable pub entry_signal : Value → Option ClaudeJsonlServiceCapSignal
  entry_signal v =
      if is_max_tokens v
      then signal "claude_jsonl_max_tokens_since_dispatch" "max_tokens"
      else if is_rate_limit v
      then signal "claude_jsonl_rate_limit_since_dispatch" "rate_limit"
      else if is_429 v
      then signal "claude_jsonl_api_429_since_dispatch" "apiErrorStatus=429"
      else if is_cap_text v
      then signal "claude_jsonl_api_error_text_since_dispatch" "isApiErrorMessage service cap"
      else none

  abbrev pub timestamp : Value → Option ℕ
  timestamp v = and_then (get_str v "timestamp") libs.parse_from_rfc3339

  abbrev pub dated_signal : ℕ → Option ℕ → Value → Option ClaudeJsonlServiceCapSignal
  dated_signal since none v = none
  dated_signal since (some t) v = if ltb t since then none else entry_signal v

  abbrev pub parsed_signal : ℕ → String ⊎ Value → Option ClaudeJsonlServiceCapSignal
  parsed_signal since (inl e) = none
  parsed_signal since (inr v) = dated_signal since (timestamp v) v

  unfoldable pub line_signal : ℕ → String → Option ClaudeJsonlServiceCapSignal
  line_signal since line = parsed_signal since (libs.json.from_str line)

  -- `.lines().rev()`: the last line that gives a signal.
  unfoldable pub scan_back : ℕ → List String → Option ClaudeJsonlServiceCapSignal
  scan_back since [] = none
  scan_back since (line ∷ ls) = or_else (scan_back since ls) (line_signal since line)

  unfoldable pub tail_service_cap_since : String → ℕ → Option ClaudeJsonlServiceCapSignal
  tail_service_cap_since tail since = scan_back since (lines tail)

  -- `read_log_tail` gives the log's tail.
  unfoldable pub session_jsonl_service_cap_since :
      (String → ℕ → Result String)
      → Option String
      → String
      → String
      → ℕ
      → Result (Option ClaudeJsonlServiceCapSignal)
  session_jsonl_service_cap_since read_log_tail home repo session_id since = do
    h ← home_dir home
    tail ← read_log_tail (session_log_path h repo session_id) max_jsonl_tail_bytes
    ok (tail_service_cap_since tail since)
