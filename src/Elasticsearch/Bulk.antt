-- ===== src/Elasticsearch/Bulk.antt =====
-- The lines of a bulk request.

use sg_core.Prelude.{
  ◌≡◌, refl, ap, ◌∙◌, arith, Bool, true, String, List, [], ◌∷◌, ◌++◌ as ◌+++◌, split, lacks,
  lacks-append, all_lack, split-append,
}
use sg_core.Elasticsearch.Client.{Connection, action_line, bulk_loop, format_bulk_request}

-- A text without a line feed.
abbrev pub is_line : String → Bool
is_line = lacks b'\n'

abbrev pub all_lines : List String → Bool
all_lines = all_lack b'\n'

module _ {S : Type 0} (conn : Connection S) where
  -- The lines of the request: for each document a line of its own with a new identifier, and the document.
  abbrev pub bulk_lines : String → List String → S → List String
  bulk_lines index [] s = []
  bulk_lines index (doc ∷ docs) s =
      let (s', id) = conn.generate_document_id s in
      action_line conn index id ∷ doc ∷ bulk_lines index docs s'

  action_line-is_line :
      (index id : String)
      → is_line index ≡ true
      → is_line id ≡ true
      → is_line (action_line conn index id) ≡ true
  unfolding action_line
  action_line-is_line index id h k = simp (lacks-append, h, k)

  -- Split at its line feeds, a bulk request is the line of an identifier and the document for each of the
  -- documents, in order, and an empty line at the end, if the documents, the index and the
  -- identifiers have no line feeds.
  pub format_bulk_request-lines :
      (index : String) (docs : List String) (s : S)
      → is_line index ≡ true
      → all_lines docs ≡ true
      → ((t : S) → is_line (conn.generate_document_id t).1 ≡ true)
      → split b'\n' (format_bulk_request conn index docs s).1
        ≡ bulk_lines index docs s +++ "" ∷ "" ∷ []
  unfolding format_bulk_request bulk_loop split
  format_bulk_request-lines index [] s h k ids = refl
  format_bulk_request-lines index (doc ∷ docs) s h k ids =
      let (s', id) = conn.generate_document_id s in
      split-append "\n" (action_line conn index id) _ (action_line-is_line index id h (ids s))
      ∙ ap (λ l. action_line conn index id ∷ l)
          (split-append "\n" doc _ (ground (arith, k))
            ∙ ap (λ l. doc ∷ l) (format_bulk_request-lines index docs s' h (ground (arith, k)) ids))
