-- ===== src/Elasticsearch/Client.antt =====
-- plugins/application/elasticsearch/pkg/lib/client.go. The library's client, which answers requests and
-- changes the server's state of type S, files, certificates and identifiers are arguments.
use Prim.Native.String.{◌++◌}
use sg_core.Prelude.{
  ℕ, ◌==◌, Bool, true, false, ◌||◌, String, str_eq, List, [], ◌∷◌, Option, none, some, decimal,
  join, contains_text, if◌then◌else◌, ◌⊎◌, inl, inr,
}
use sg_core.Elasticsearch.Documents.{AppConfig}

-- The answer to a request; `discard_error` is that of reading the rest of the body.
pub record Response : Type 0 where
  pub status_code : ℕ
  pub body : String
  pub discard_error : Option String

pub record Connection (S : Type 0) : Type 0 where
  pub exists : List String → S → S × (String ⊎ Response)
  pub delete : List String → S → S × (String ⊎ Response)
  pub create : String → S → S × (String ⊎ Response)
  pub index : String → String → S → S × (String ⊎ Response)
  pub bulk : String → S → S × (String ⊎ Response)
  pub info : S → S × (String ⊎ Response)
  -- generateDocumentID
  pub generate_document_id : S → S × String

abbrev failed_discard : String → String
failed_discard err = "failed to discard response body: " ++ err

abbrev discarded : Response → Option String
discarded res = elim (res.discard_error) [ none ↦ none | some err ↦ some (failed_discard err) ]

abbrev is_ok : Response → Bool
is_ok res = res.status_code == 200

abbrev is_saved : Response → Bool
is_saved res = (res.status_code == 200) || (res.status_code == 201)

abbrev with_status : String → Response → String
with_status text res = text ++ ("[" ++ (decimal res.status_code ++ ("]: " ++ res.body)))

-- The configuration of TLS.
pub record TlsConfig (Cert Pool : Type 0) : Type 0 where
  pub certificate : Cert
  pub root_cas : Pool
  pub insecure_skip_verify : Bool
  pub server_name : String

pub record Files (Cert Pool : Type 0) : Type 0 where
  pub load_key_pair : String → String → String ⊎ Cert
  pub read_file : String → String ⊎ String
  pub cert_pool : String → Pool

pub record ClientConfig (Cert Pool : Type 0) : Type 0 where
  pub address : String
  pub tls : Option (TlsConfig Cert Pool)
  pub username : String
  pub password : String

module _ {Cert Pool : Type 0} (files : Files Cert Pool) where
  unfoldable pub create_tls_config :
      String → String → String → String → String ⊎ TlsConfig Cert Pool
  create_tls_config server_name cert_file key_file ca_file =
      elim (files.load_key_pair cert_file key_file) [
        | inl err ↦ inl err
        | inr cert ↦ elim (files.read_file ca_file) [
          | inl err ↦ inl err
          | inr ca ↦ inr record {
            certificate = cert;
            root_cas = files.cert_pool ca;
            insecure_skip_verify = str_eq server_name "";
            server_name = server_name;
          }
        ]
      ]

  -- The configuration that Connect gives the library.
  abbrev client_config : AppConfig → Option (TlsConfig Cert Pool) → ClientConfig Cert Pool
  client_config cfg tls = record {
    address = cfg.host_url;
    tls = tls;
    username = if cfg.use_basic_auth then cfg.user else "";
    password = if cfg.use_basic_auth then cfg.password else "";
  }

  unfoldable pub connection_config : AppConfig → String ⊎ ClientConfig Cert Pool
  unfolding create_tls_config
  connection_config cfg =
      if cfg.use_tls
      then elim (create_tls_config cfg.tls_server_name cfg.tls_client_cert cfg.tls_client_key
          cfg.tls_ca_cert) [ inl err ↦ inl err | inr tls ↦ inr (client_config cfg (some tls)) ]
      else inr (client_config cfg none)

  -- Connect, with esv7.NewClient as an argument: the connection is kept also if its test fails.
  unfoldable pub connect :
      {S : Type 0}
      → (ClientConfig Cert Pool → String ⊎ Connection S)
      → AppConfig
      → S
      → S × (Option (Connection S) × Option String)
  unfolding connection_config
  connect new_client cfg s = elim (connection_config cfg) [
    | inl err ↦ (s, (none, some err))
    | inr config ↦ elim (new_client config) [
      | inl err ↦ (s, (none, some ("failed to initialize connection: " ++ err)))
      | inr conn ↦
          let (s', answer) = conn.info s in
          elim answer [
            | inl err ↦ (s', (some conn, some ("failed to get info from connection: " ++ err)))
            | inr res ↦ (s', (some conn, discarded res))
          ]
    ]
  ]

module _ {S : Type 0} (conn : Connection S) where
  unfoldable pub indices_exists : List String → S → S × (Bool × Option String)
  indices_exists indices s =
      let (s', answer) = conn.exists indices s in
      elim answer [
        | inl err ↦ (s', (false, some err))
        | inr res ↦ elim (res.discard_error) [
          | some err ↦ (s', (false, some (failed_discard err)))
          | none ↦
              if is_ok res
              then (s', (true, none))
              else if res.status_code == 404
              then (s', (false, none))
              else (
                s',
                (
                  false,
                  some (
                      "failed to check for indices ["
                      ++ (join "," indices ++ ("]: " ++ decimal res.status_code))),
                ),
              )
        ]
      ]

  unfoldable pub indices_delete : List String → S → S × Option String
  indices_delete indices s =
      let (s', answer) = conn.delete indices s in
      elim answer [
        | inl err ↦ (s', some err)
        | inr res ↦
            if is_ok res || (res.status_code == 404)
            then (s', discarded res)
            else (s', some (with_status "failed to delete indices " res))
      ]

  unfoldable pub indices_create : List String → S → S × Option String
  unfolding contains_text
  indices_create [] s = (s, none)
  indices_create (index ∷ indices) s =
      let (s', answer) = conn.create index s in
      let next = indices_create indices s' in
      elim answer [
        | inl err ↦ (s', some err)
        | inr res ↦
            if is_ok res
            then elim (discarded res) [ some err ↦ (s', some err) | none ↦ next ]
            else if contains_text "resource_already_exists_exception" res.body
            then (s', none)
            else (s', some (with_status "failed to create index " res))
      ]

  -- The loop of Index over the documents.
  unfoldable pub index_each : String → List String → S → S × Option String
  index_each index [] s = (s, none)
  index_each index (doc ∷ docs) s =
      let (s', answer) = conn.index index doc s in
      let next = index_each index docs s' in
      elim answer [
        | inl err ↦ (s', some err)
        | inr res ↦
            if is_saved res
            then elim (discarded res) [ some err ↦ (s', some err) | none ↦ next ]
            else (s', some (with_status "failed to index document" res))
      ]

  -- The line before a document.
  unfoldable pub action_line : String → String → String
  action_line index id =
      "{\"index\":{\"_index\":\"" ++ (index ++ ("\",\"_id\":\"" ++ (id ++ "\"}}")))

  -- formatBulkRequest, from what the buffer holds.
  unfoldable pub bulk_loop : String → List String → S → S × String
  unfolding action_line
  bulk_loop index [] s = (s, "\n")
  bulk_loop index (doc ∷ docs) s =
      let (s', id) = conn.generate_document_id s in
      let (s'', rest) = bulk_loop index docs s' in
      (s'', action_line index id ++ ("\n" ++ (doc ++ ("\n" ++ rest))))

  unfoldable pub format_bulk_request : String → List String → S → S × String
  unfolding bulk_loop
  format_bulk_request index documents s = bulk_loop index documents s

  -- Index
  unfoldable pub index_documents : String → List String → Bool → S → S × Option String
  unfolding index_each format_bulk_request
  index_documents index documents false s = index_each index documents s
  index_documents index documents true s =
      let (s', request) = format_bulk_request index documents s in
      let (s'', answer) = conn.bulk request s' in
      elim answer [
        | inl err ↦ (s'', some err)
        | inr res ↦
            if is_saved res
            then (s'', discarded res)
            else (s'', some (with_status "failed to index document(s)" res))
      ]
