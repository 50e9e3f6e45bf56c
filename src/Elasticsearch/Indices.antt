-- ===== src/Elasticsearch/Indices.antt =====
-- Which indices IndicesCreate has created when it returns.
use sg_core.Prelude.{
  ◌==◌, ◌≡◌, refl, true, false, String, List, [], ◌∷◌, ◌++◌, none, inr, contains_text,
}
use sg_core.Elasticsearch.Client.{Response, Connection, indices_create}

module _ {S : Type 0} (conn : Connection S) where
  -- From one state of the server to another each of the indices is created.
  pub data Creates : List String → S → S → Type 0 where
    created : {s : S} → Creates [] s s
    creates :
        {index : String} {indices : List String} {s s' : S} (res : Response)
        → (conn.create index s).1 ≡ inr res
        → (res.status_code == 200) ≡ true
        → res.discard_error ≡ none
        → Creates indices (conn.create index s).0 s'
        → Creates (index ∷ indices) s s'

  -- Where the indices before it are created, an index that exists ends IndicesCreate without an error:
  -- those behind it are never requested.
  pub indices_create-existing :
      (before : List String) (index : String) (after : List String) (s s' : S) (res : Response)
      → Creates before s s'
      → (conn.create index s').1 ≡ inr res
      → (res.status_code == 200) ≡ false
      → contains_text "resource_already_exists_exception" res.body ≡ true
      → indices_create conn (before ++ index ∷ after) s ≡ ((conn.create index s').0, none)
  unfolding indices_create
  indices_create-existing [] index after s s' res created answer bad exists =
      rw (indices_create, answer) (rw bad (rw exists refl))
  indices_create-existing (first ∷ before) index after s s' res
        (creates first_res first_answer ok discarded rest) answer bad exists =
      rw (indices_create, first_answer)
        (rw ok (
          rw discarded
            (indices_create-existing before index after _ s' res rest answer bad exists)))
