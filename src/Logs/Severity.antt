-- ===== src/Logs/Severity.antt =====
-- plugins/handler/logs/pkg/lib/syslog.go, config.go and time.go. A SyslogSeverity is an int; regular
-- expressions, lower case and time.Parse are arguments.
use sg_core.Prelude.{
  ℕ, zero, suc, ◌+◌, Bool, true, false, String, str_eq, List, [], ◌∷◌, Option, none, some, ℤ, pos,
  negsuc, if◌then◌else◌, Outcome, returns, panics, ◌>>=◌, index, atoi, split_n, Dict, lookup,
}
use sg_core.Data.{EventSeverity, critical, warning, info, debug, unknown, Value, str}

pub record LogConfig : Type 0 where
  pub message_field : String
  pub timestamp_field : String
  pub hostname_field : String
  pub severity_field : String
  pub correct_severity : Bool
  pub index_prefix : String

-- UNKNOWN, the last of the constants.
abbrev pub unknown_severity : ℕ
unknown_severity = 8

-- l[i] with an index that is an int.
abbrev pub index_int {ℓ} : {A : Type ℓ} → List A → ℤ → Outcome A
index_int l (pos n) = index l n
index_int l (negsuc n) = panics

abbrev pub severity_names : List String
severity_names =
    "emergency" ∷ "alert" ∷ "critical" ∷ "error" ∷ "warning" ∷ "notice" ∷ "info" ∷ "debug"
    ∷ "unknown" ∷ []

unfoldable pub syslog_string : ℤ → Outcome String
syslog_string rs = index_int severity_names rs

abbrev pub event_severities : List EventSeverity
event_severities =
    critical ∷ critical ∷ critical ∷ critical ∷ warning ∷ info ∷ info ∷ debug ∷ unknown ∷ []

unfoldable pub to_event_severity : ℤ → Outcome EventSeverity
to_event_severity rs = index_int event_severities rs

module _ (compile : String → Option (String → Bool)) (to_lower : String → String) where
  -- Whether one of the tokens that are not empty matches.
  unfoldable pub match_tokens : (String → Bool) → List String → Bool
  match_tokens rex [] = false
  match_tokens rex (token ∷ tokens) =
      let rest = match_tokens rex tokens in
      if str_eq token "" then rest else if rex (to_lower token) then true else rest

  -- The loop of fromMessage over the severities from `i` on, `k` of them.
  unfoldable pub severity_loop : ℕ → ℕ → List String → Outcome (Option ℤ)
  unfolding syslog_string match_tokens
  severity_loop zero i tokens = returns none
  severity_loop (suc k) i tokens = syslog_string (pos i) >>= (λ name.
      let rest = severity_loop k (i + 1) tokens in
      elim (compile name) [
        | none ↦ rest
        | some rex ↦ if match_tokens rex tokens then returns (some (pos i)) else rest
      ])

  -- The severity that fromMessage finds, if it does; the separator is a space, 10 tokens at most.
  unfoldable pub from_message : String → Outcome (Option ℤ)
  unfolding severity_loop
  from_message msg = severity_loop unknown_severity 0 (split_n 10 b' ' msg)

  unfoldable pub field_severity : {F : Type 0} → Option (Value F) → ℤ
  field_severity (some (str s)) = elim (atoi s) [ none ↦ pos unknown_severity | some n ↦ n ]
  field_severity v = pos unknown_severity

  -- A severity that fromMessage finds takes the place of the other.
  unfoldable pub corrected : ℤ → Option ℤ → ℤ
  corrected severity none = severity
  corrected severity (some s) = s

  unfoldable pub get_severity_from_log : {F : Type 0} → Dict (Value F) → LogConfig → Outcome ℤ
  unfolding field_severity from_message corrected
  get_severity_from_log log config =
      let severity = field_severity (lookup config.severity_field log) in
      if config.correct_severity
      then elim (lookup config.message_field log) [
        | some (str msg) ↦ from_message msg >>= (λ found. returns (corrected severity found))
        | v ↦ panics
      ]
      else returns severity

-- The layouts in the order in which they are tried.
abbrev layouts : List String
layouts =
    "2006-01-02T15:04:05.000000" ∷ "2006-01-02T15:04:05Z07:00"
    ∷ "2006-01-02T15:04:05.999999999Z07:00" ∷ "Mon Jan _2 15:04:05 2006"
    ∷ "2006-01-02 15:04:05.000000" ∷ []

module _ {Time : Type 0} (time_parse : String → String → Option Time) where
  unfoldable pub time_loop : List String → String → Option Time
  time_loop [] ts = none
  time_loop (layout ∷ rest) ts =
      let other = time_loop rest ts in
      elim (time_parse layout ts) [ none ↦ other | some stamp ↦ some stamp ]

  unfoldable pub time_from_format : String → Option Time
  unfolding time_loop
  time_from_format ts = time_loop layouts ts
