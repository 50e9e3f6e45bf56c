-- ===== src/Elasticsearch/Documents.antt =====
-- The configuration (plugins/application/elasticsearch/pkg/lib/config.go) and the documents of
-- plugins/application/elasticsearch/main.go. JSON encoding, the merging of maps and times are arguments.
use sg_core.Prelude.{
  Bool, false, String, List, Option, none, ℤ, pos, Dict, insert, if◌then◌else◌, Outcome, returns,
  ◌>>=◌, in_range,
}
use sg_core.Data.{Event, Value, event_type_string, severity_string}

pub record AppConfig : Type 0 where
  pub host_url : String
  pub use_tls : Bool
  pub tls_server_name : String
  pub tls_client_cert : String
  pub tls_client_key : String
  pub tls_ca_cert : String
  pub use_basic_auth : Bool
  pub user : String
  pub password : String
  pub buffer_size : ℤ
  pub bulk_index : Bool
  pub reset_indices : Option (List String)
  pub index_workers : ℤ
  pub buffer_timeout : ℤ

-- What Config starts from.
unfoldable pub default_config : AppConfig
default_config = record {
  host_url = "";
  use_tls = false;
  tls_server_name = "";
  tls_client_cert = "";
  tls_client_key = "";
  tls_ca_cert = "";
  use_basic_auth = false;
  user = "";
  password = "";
  buffer_size = pos 1;
  bulk_index = false;
  reset_indices = none;
  index_workers = pos 3;
  buffer_timeout = pos 5;
}

pub record Record (F : Type 0) : Type 0 where
  pub event_type : String
  pub generated : String
  pub severity : String
  pub labels : Dict (Value F)
  pub annotations : Dict (Value F)

pub record Log : Type 0 where
  pub timestamp : String
  pub labels : Dict String
  pub message : String

-- What the documents rely on of other packages; encoding may fail.
pub record Encoders (F : Type 0) : Type 0 where
  pub marshal_record : Record F → Option String
  pub marshal_log : Log → Option String
  -- misc.AssimilateMap of misc.MergeMaps of the annotations and the labels.
  pub merged : Dict (Value F) → Dict (Value F) → Dict String
  pub is_zero : F → Bool
  pub now : String
  -- time.Unix of the whole seconds and the rest, in RFC3339.
  pub format_epoch : F → String

module _ {F : Type 0} (enc : Encoders F) where
  unfoldable pub time_from_epoch : F → String
  time_from_epoch epoch = if enc.is_zero epoch then enc.now else enc.format_epoch epoch

  unfoldable pub format_record : Event F → Outcome (Option String)
  unfolding time_from_epoch
  format_record e = in_range (event_type_string e.type) >>= (λ event_type.
      in_range (severity_string e.severity) >>= (λ severity. returns (
        enc.marshal_record record {
          event_type = event_type;
          generated = time_from_epoch e.time;
          severity = severity;
          labels = e.labels;
          annotations = e.annotations;
        })))

  unfoldable pub format_log : Event F → Outcome (Option String)
  unfolding time_from_epoch
  format_log e = in_range (severity_string e.severity) >>= (λ severity. returns (
      enc.marshal_log record {
        timestamp = time_from_epoch e.time;
        labels = insert "severity" severity (enc.merged e.annotations e.labels);
        message = e.message;
      }))
