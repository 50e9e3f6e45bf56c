-- ===== src/Logs/Tests.antt =====
-- Runs of the log handler: a time is a number of seconds and a float64 a natural number here.
use sg_core.Prelude.{
  ℕ, ◌≡◌, refl, Bool, true, String, str_eq, [], ◌∷◌, some, pos, ◌⊎◌, inl, inr, subst, atoi, Dict,
  lookup,
}
use sg_core.Data.{Value, str}
use sg_core.Logs.Severity.{field_severity}
use sg_core.Logs.Messages.{Handler, Packages, handle}
use sg_core.Logs.Accepted.{Accepted, handle-Accepted, in_table}

abbrev fields : String → Dict (Value ℕ)
fields severity =
    ("severity", str severity)
    ∷ ("host", str "controller-0")
    ∷ ("time", str "2020-09-14T16:12:49")
    ∷ ("message", str "an error")
    ∷ []

abbrev packages : String → Packages ℕ ℕ
packages severity = record {
  unmarshal = λ blob. inr (fields severity);
  compile = λ rex. some (λ token. str_eq rex token);
  to_lower = λ s. s;
  time_parse = λ layout ts. some 7;
  unix = λ t. pos t;
  date = λ t. (2020, 9, 14);
  float64_of_int = λ z. 0;
  float64 = λ n. n;
}

abbrev started : Bool → Handler ℕ
started correct = record {
  total_logs_received = 0;
  config = record {
    message_field = "message";
    timestamp_field = "time";
    hostname_field = "host";
    severity_field = "severity";
    correct_severity = correct;
    index_prefix = "sglogs";
  };
  out = record { metrics = []; events = [] };
}

abbrev WithinTable : String ⊎ Dict (Value ℕ) → Type 0
WithinTable (inl err) = Unit
WithinTable (inr fs) =
    in_table (field_severity (packages "4").compile (packages "4").to_lower (lookup "severity" fs))
    ≡ true

handle-Accepted_example :
    Accepted
      (packages "4")
      "log"
      true
      (started true)
      (handle (packages "4") "log" true (started true))
unfolding field_severity lookup atoi
handle-Accepted_example =
    handle-Accepted (packages "4") "log" true (started true)
      (λ fs decodes. subst WithinTable decodes refl)
