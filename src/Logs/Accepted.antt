-- ===== src/Logs/Accepted.antt =====
-- When the severity of a log is within the table of severities: parse and Handle of
-- plugins/handler/logs/main.go return.
use sg_core.Prelude.{
  ℕ, zero, suc, ◌+◌, ◌<◌, ◌≡◌, refl, arith, Bool, true, false, String, List, Option, none, some, ℤ,
  pos, negsuc, ltb, Outcome, returns, panics, Returns, bind-Returns, index-Returns, index-panics,
  inc64, Dict, lookup, Option-cases, Sum-cases, Bool-cases, inl, inr, ◌⊎◌, split_n,
}
use sg_core.Data.{Event, Value, str, as_text-str}
use sg_core.Logs.Severity.{
  LogConfig, syslog_string, to_event_severity, match_tokens, severity_loop, from_message,
  field_severity, get_severity_from_log, corrected, severity_names, event_severities,
  unknown_severity, time_from_format,
}
use sg_core.Logs.Messages.{
  Handler, Packages, text_field, parse_fields, parse, publish_parsed, handle,
}

-- A severity that has an entry in the table.
abbrev pub in_table : ℤ → Bool
in_table (pos n) = ltb n 9
in_table (negsuc n) = false

-- What fromMessage may find.
abbrev pub found_in_table : Option ℤ → Bool
found_in_table none = true
found_in_table (some s) = in_table s

to_event_severity-Returns : (s : ℤ) → in_table s ≡ true → Returns (to_event_severity s)
unfolding to_event_severity
to_event_severity-Returns (pos n) h = index-Returns event_severities n (grind (arith, h))
to_event_severity-Returns (negsuc n) h = absurd (grind (arith, h))

to_event_severity-panics : (s : ℤ) → in_table s ≡ false → to_event_severity s ≡ panics
unfolding to_event_severity
to_event_severity-panics (pos n) h = index-panics event_severities n (grind (arith, h))
to_event_severity-panics (negsuc n) h = refl

syslog_string-Returns : (n : ℕ) → n < 9 → Returns (syslog_string (pos n))
unfolding syslog_string
syslog_string-Returns n h = index-Returns severity_names n h

module _ (compile : String → Option (String → Bool)) (to_lower : String → String) where
  severity_loop-Returns :
      (k i : ℕ) (tokens : List String)
      → k + i < 9
      → (r : Option ℤ) × (severity_loop compile to_lower k i tokens ≡ returns r)
        × (found_in_table r ≡ true)
  unfolding severity_loop
  severity_loop-Returns zero i tokens h = (none, refl, refl)
  severity_loop-Returns (suc k) i tokens h =
      let name = syslog_string-Returns i (omega (arith, h)) in
      let rest = severity_loop-Returns k (i + 1) tokens (omega (arith, h)) in
      rw name.result (elim (Option-cases (compile name.value)) [
        | inl none_compiled ↦ rw none_compiled rest
        | inr (rex, compiled) ↦
            rw compiled (elim (Bool-cases (match_tokens compile to_lower rex tokens)) [
              | inl matched ↦ rw matched (some (pos i), refl, grind (arith, h))
              | inr unmatched ↦ rw unmatched rest
            ])
      ])

  corrected-in_table :
      (s : ℤ) (found : Option ℤ)
      → in_table s ≡ true
      → found_in_table found ≡ true
      → in_table (corrected compile to_lower s found) ≡ true
  unfolding corrected
  corrected-in_table s none h k = h
  corrected-in_table s (some t) h k = k

  get_severity-Returns :
      {F : Type 0} (fields : Dict (Value F)) (config : LogConfig) (msg : String)
      → lookup config.message_field fields ≡ some (str msg)
      → in_table (field_severity compile to_lower (lookup config.severity_field fields)) ≡ true
      → (s : ℤ) × (get_severity_from_log compile to_lower fields config ≡ returns s)
        × (in_table s ≡ true)
  unfolding get_severity_from_log from_message
  get_severity-Returns fields config msg h k = elim (Bool-cases config.correct_severity) [
    | inl corrects ↦
        let found = severity_loop-Returns unknown_severity 0 (split_n 10 b' ' msg) (omega arith) in
        rw corrects (rw h (rw (found.1) (_, refl, corrected-in_table _ found.0 k found.2)))
    | inr plain ↦ rw plain (_, refl, k)
  ]

module _ {F Time : Type 0} (p : Packages F Time) where
  -- The severity of a log, as its severity field has it, is in the table.
  abbrev pub SeverityInTable : LogConfig → String → Type 0
  SeverityInTable config blob =
      (fields : Dict (Value F))
      → p.unmarshal blob ≡ inr fields
      → in_table (field_severity p.compile p.to_lower (lookup config.severity_field fields)) ≡ true

  text_field-lookup :
      (name : String) (fields : Dict (Value F)) (s : String)
      → text_field name fields ≡ some s
      → lookup name fields ≡ some (str s)
  unfolding text_field
  text_field-lookup name fields s h = as_text-str (lookup name fields) s h

  parse_fields-Returns :
      (config : LogConfig) (fields : Dict (Value F)) (msg : String)
      → lookup config.message_field fields ≡ some (str msg)
      → in_table (field_severity p.compile p.to_lower (lookup config.severity_field fields)) ≡ true
      → Returns (parse_fields p config fields msg)
  unfolding parse_fields
  parse_fields-Returns config fields msg h k =
      let severity = get_severity-Returns p.compile p.to_lower fields config msg h k in
      rw severity.1 (elim (Option-cases (text_field config.hostname_field fields)) [
        | inl absent ↦ rw absent (record { value = _; result = refl })
        | inr (host, present) ↦
            rw present (elim (Option-cases (text_field config.timestamp_field fields)) [
              | inl absent ↦ rw absent (record { value = _; result = refl })
              | inr (ts, stamped) ↦
                  rw stamped (elim (Option-cases (time_from_format p.time_parse ts)) [
                    | inl absent ↦ rw absent (record { value = _; result = refl })
                    | inr (t, parsed) ↦ rw parsed (
                        bind-Returns (to_event_severity-Returns severity.0 severity.2)
                          (λ es eq. record { value = _; result = refl }))
                  ])
            ])
      ])

  parse-Returns :
      (config : LogConfig) (blob : String)
      → SeverityInTable config blob
      → Returns (parse p config blob)
  unfolding parse
  parse-Returns config blob h = elim (Sum-cases (p.unmarshal blob)) [
    | inl (err, failed) ↦ rw (parse, failed) (record { value = _; result = refl })
    | inr (fields, decodes) ↦
        rw (parse, decodes)
          (elim (Option-cases (text_field config.message_field fields)) [
            | inl absent ↦ rw absent (record { value = _; result = refl })
            | inr (msg, present) ↦ rw present (
                parse_fields-Returns config fields msg
                  (text_field-lookup config.message_field fields msg present) (h fields decodes))
          ])
  ]

  -- How Handle ends: it returns no error, whatever parse made of the message, which is published as
  -- one event or, if it could not be parsed, as an error event where those are wanted.
  pub record Accepted (msg : String) (report : Bool) (l : Handler F)
      (r : Outcome (Handler F × Option String)) : Type 0 where
    pub parsed : String ⊎ Event F
    pub parses : parse p l.config msg ≡ returns parsed
    pub result :
        r
        ≡ returns (
          publish_parsed p msg report parsed
              (record l { total_logs_received = inc64 l.total_logs_received }),
          none,
        )

  -- If the severity field of a log is no number beyond the table of severities, Handle returns: with
  -- severities corrected from the message or not, for a message that parses or not.
  pub handle-Accepted :
      (msg : String) (report : Bool) (l : Handler F)
      → SeverityInTable l.config msg
      → Accepted msg report l (handle p msg report l)
  unfolding handle
  handle-Accepted msg report l h =
      let r = parse-Returns l.config msg h in
      record { parsed = r.value; parses = r.result; result = rw r.result refl }

  -- A log with all its fields and a time, whose severity is a number beyond the table, makes Handle panic
  -- if severities are not corrected from the message.
  pub handle-panics :
      (msg : String) (report : Bool) (l : Handler F) (fields : Dict (Value F))
      (text host ts : String) (t : Time)
      → p.unmarshal msg ≡ inr fields
      → text_field l.config.message_field fields ≡ some text
      → text_field l.config.hostname_field fields ≡ some host
      → text_field l.config.timestamp_field fields ≡ some ts
      → time_from_format p.time_parse ts ≡ some t
      → l.config.correct_severity ≡ false
      → in_table (field_severity p.compile p.to_lower (lookup l.config.severity_field fields))
        ≡ false
      → handle p msg report l ≡ panics
  unfolding handle parse parse_fields get_severity_from_log
  handle-panics msg report l fields text host ts t decodes texts hosts stamps times plain beyond =
      rw (handle, parse, decodes)
        (rw texts (
          rw plain (rw hosts (rw stamps (rw times (rw (to_event_severity-panics _ beyond) refl))))))
