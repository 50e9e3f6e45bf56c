-- ===== src/Loki.antt =====
-- plugins/application/loki/main.go and pkg/lib/loki.go: logs for Loki from the events of the bus. The
-- channel is a queue; what misc.AssimilateMap makes of labels, float64 and Loki's connector are arguments.
use Prim.Native.String.{◌++◌ as ◌+++◌}
use sg_core.Prelude.{
  String, List, [], ◌∷◌, ◌++◌, Option, none, some, ℤ, pos, ◌*ℤ◌, wrap64, Dict, insert, Outcome,
  returns, ◌>>=◌, in_range, ◌⊎◌, inl, inr,
}
use sg_core.Data.{Event, Value, error, event, log, result, task, severity_string}

pub record LokiConfig : Type 0 where
  pub connection : String
  pub batch_size : ℤ
  pub max_wait_time : ℤ

-- A log of Loki's connector.
pub record LokiLog : Type 0 where
  pub log_message : String
  pub timestamp : ℤ
  pub labels : Dict String

pub record Packages (F Client : Type 0) : Type 0 where
  -- misc.AssimilateMap into an empty map.
  pub assimilate : Dict (Value F) → Dict String
  -- The conversion of a float64 to time.Duration.
  pub to_duration : F → ℤ
  pub parse_config : LokiConfig → LokiConfig × Option String
  -- loki.CreateLokiConnector: the connector, if there is one, and the error.
  pub create_connector : LokiConfig → Option Client × Option String

pub record Loki (Client : Type 0) : Type 0 where
  pub config : Option LokiConfig
  pub client : Option Client
  pub log_channel : List LokiLog

unfoldable pub new_loki : {Client : Type 0} → Loki Client
new_loki = record { config = none; client = none; log_channel = [] }

abbrev second : ℤ
second = pos 1000000000

module _ {F Client : Type 0} (p : Packages F Client) where
  unfoldable pub create_labels : Dict (Value F) → String ⊎ Dict String
  create_labels raw_labels = elim (p.assimilate raw_labels) [
    | [] ↦ inl "unable to create log labels"
    | first ∷ rest ↦ inr (first ∷ rest)
  ]

  unfoldable pub create_loki_log : Event F → Outcome (String ⊎ LokiLog)
  unfolding create_labels
  create_loki_log e = elim (create_labels e.labels) [
    | inl err ↦ returns (inl err)
    | inr labels ↦ in_range (severity_string e.severity) >>= (λ severity. returns (
        inr record {
          log_message = e.message;
          timestamp = wrap64 (p.to_duration e.time *ℤ second);
          labels = insert "severity" severity labels;
        }))
  ]

  abbrev enqueue : Loki Client → String ⊎ LokiLog → Loki Client
  enqueue l (inl err) = l
  enqueue l (inr made) = record l { log_channel = l.log_channel ++ made ∷ [] }

  unfoldable pub receive_event : Event F → Loki Client → Outcome (Loki Client)
  unfolding create_loki_log
  receive_event e l = elim (e.type) [
    | log ↦ create_loki_log e >>= (λ made. returns (enqueue l made))
    | error ↦ returns l
    | event ↦ returns l
    | result ↦ returns l
    | task ↦ returns l
  ]

  unfoldable pub configure : Loki Client → Loki Client × Option String
  configure l =
      let parsed =
        p.parse_config record { connection = ""; batch_size = pos 20; max_wait_time = pos 100 } in
      let connector = p.create_connector parsed.0 in
      elim (parsed.1) [
        | some err ↦ (record l { config = some parsed.0 }, some err)
        | none ↦ (
          record l { config = some parsed.0; client = connector.0 },
          elim (connector.1) [
            | some err ↦ some ("failed to connect to Loki host: " +++ err)
            | none ↦ none
          ],
        )
      ]
