-- ===== src/Signals.antt =====
-- src/signals.rs, the classification of what a provider printed, with the pattern catalog of
-- src/constants.rs.
pub mod Processes
pub mod Collecting
use multi_agent_orchestrator.Prelude.{
  ℕ, zero, suc, Option, none, some, String, List, [], ◌∷◌, or_else, unwrap_or, and_then,
}
use multi_agent_orchestrator.State.{ProviderErrorClass, service_cap, permission, auth, transport}

-- What is taken from `regex`: the indices of the patterns of a set that match, in ascending order,
-- and the text of a pattern's first match.
pub record RegexLib : Type 0 where
  pub matches : List String → String → List ℕ
  pub find : String → String → Option String

pub record ProviderErrorMatch : Type 0 where
  pub error_class : ProviderErrorClass
  pub matched_pattern : String
  pub fragment : String

abbrev pub service_cap_patterns : List String
service_cap_patterns =
    "(?i)usage limit (reached|exceeded|hit)" ∷ "(?i)reached your usage limit"
    ∷ "(?i)hit your usage limit" ∷ "(?i)you'?ve hit your limit" ∷ "(?i)rate limit exceeded"
    ∷ "(?i)quota exceeded" ∷ "(?i)\\bhttp\\s*429\\b"
    ∷ "(?i)\\b429\\b.{0,40}(rate limit|too many requests|quota)"
    ∷ "(?i)(selected model is at capacity|server[_ ]overloaded)" ∷ []

abbrev pub permission_patterns : List String
permission_patterns =
    "(?i)permission denied" ∷ "(?i)sandbox.{0,40}(denied|forbidden|blocked|violation)"
    ∷ "(?i)policy violation" ∷ []

abbrev pub transport_patterns : List String
transport_patterns =
    "(?i)(connect|read|request)timeout"
    ∷ "(?i)(connect|connection|read|request|operation).{0,24}timed out" ∷ "(?i)connection reset"
    ∷ "(?i)broken pipe" ∷ "(?i)connection refused" ∷ "(?i)connectionrefused"
    ∷ "(?i)network unreachable"
    ∷ "(?i)\\b(http\\s*)?50[234]\\b.{0,32}(bad gateway|service unavailable|gateway timeout)?"
    ∷ "(?i)failed to open socket" ∷ "(?i)failedtoopensocket" ∷ []

abbrev pub auth_patterns : List String
auth_patterns =
    "(?i)\\b401\\b.{0,40}(unauthorized|invalid|auth|token|key|credential)"
    ∷ "(?i)\\bunauthorized\\b.{0,40}(api|token|key|credential|request|access|auth)|\\b(auth|api).{0,40}unauthorized\\b"
    ∷ "(?i)\\b403\\b.{0,40}(forbidden|access denied|auth|token|api)|\\baccess denied\\b"
    ∷ "(?i)\\bforbidden\\b.{0,40}(api|token|credential|auth|request|access)|\\b(api|auth|token|credential).{0,40}\\bforbidden\\b"
    ∷ "(?i)apierror.{0,160}statuscode\\\"?\\s*:?\\s*401"
    ∷ "(?i)invalid.{0,20}(api[-_ ]?key|token|credential|credentials)" ∷ "(?i)authentication failed"
    ∷ []

-- `patterns.get(idx)`
abbrev nth : List String → ℕ → Option String
nth [] i = none
nth (p ∷ ps) zero = some p
nth (p ∷ ps) (suc i) = nth ps i

abbrev first_index : List ℕ → Option ℕ
first_index [] = none
first_index (i ∷ is) = some i

module _ (lib : RegexLib) (text : String) where
  unfoldable pub first_matching_pattern : List String → Option String
  first_matching_pattern patterns =
      and_then (first_index (lib.matches patterns text)) (nth patterns)

  -- An error of one class, if one of its patterns matches.
  unfoldable pub match_class : ProviderErrorClass → List String → Option ProviderErrorMatch
  match_class c patterns = elim (first_matching_pattern patterns) [
    | none ↦ none
    | some pattern ↦ some (record {
      error_class = c;
      matched_pattern = pattern;
      fragment = unwrap_or "" (lib.find pattern text);
    })
  ]

  -- The early returns, in their order.
  unfoldable pub classify_provider_error_with_match : Option ProviderErrorMatch
  classify_provider_error_with_match = or_else (match_class service_cap service_cap_patterns) (
      or_else (match_class permission permission_patterns)
        (or_else (match_class auth auth_patterns) (match_class transport transport_patterns)))
