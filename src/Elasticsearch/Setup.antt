-- ===== src/Elasticsearch/Setup.antt =====
-- Config of plugins/application/elasticsearch/main.go, and what Run does before it starts its goroutines:
-- how many workers there are. Decoding the configuration is an argument; the insecure use is logged only.
use Prim.Native.String.{◌++◌}
use sg_core.Prelude.{String, Option, none, some, ℤ, pos, negsuc, ℕ, ◌⊎◌}
use sg_core.Elasticsearch.Documents.{AppConfig, default_config}
use sg_core.Elasticsearch.Buffer.{Elasticsearch}
use sg_core.Elasticsearch.Client.{Connection, Files, ClientConfig, connect, indices_delete}

-- The application with its client, if it has one.
pub record Connected (S : Type 0) : Type 0 where
  pub application : Elasticsearch
  pub client : Option (Connection S)
  pub server : S

module _ {S Cert Pool : Type 0} where
  -- NewElasticClient always returns a client, whose connection may be missing.
  unfoldable pub configure :
      (AppConfig → AppConfig × Option String)
      → Files Cert Pool
      → (ClientConfig Cert Pool → String ⊎ Connection S)
      → Connected S
      → Connected S × Option String
  unfolding default_config connect
  configure parse_config files new_client es =
      let (cfg, failure) = parse_config default_config in
      let configured : Connected S = record es {
        application = record es.application { configuration = cfg };
      } in
      elim failure [
        | some err ↦ (configured, some err)
        | none ↦
            let (server, made) = connect files new_client cfg es.server in
            let connected : Connected S = record configured { client = made.0; server = server } in
            elim (made.1) [
              | some err ↦ (connected, some ("failed to connect to Elasticsearch host: " ++ err))
              | none ↦ (connected, none)
            ]
      ]

abbrev workers : ℤ → ℕ
workers (pos n) = n
workers (negsuc n) = 0

module _ {S : Type 0} where
  -- The start of Run: the indices to reset are deleted, and it returns if that fails. The number of
  -- workers that it starts, besides the flusher.
  unfoldable pub start_run : Connection S → Elasticsearch → S → S × Option ℕ
  unfolding indices_delete
  start_run client es s = elim (es.configuration.reset_indices) [
    | none ↦ (s, some (workers es.configuration.index_workers))
    | some indices ↦
        let (s', failure) = indices_delete client indices s in
        elim failure [
          | some err ↦ (s', none)
          | none ↦ (s', some (workers es.configuration.index_workers))
        ]
  ]
