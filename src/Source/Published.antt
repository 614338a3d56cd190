-- ===== src/Source/Published.antt =====
-- The coordinates that `source_document` of src/framework/source.rs publishes with an edit.
use plingo.Prelude.{ℕ, ◌<◌, ◌≡◌, sym, ap, ◌∙◌, some, List, length, get_elem?}
use plingo.Source.Coordinates.{build, map_old_to_new}
use plingo.Source.Text.{Edit, IsNormalized, IsUnchanged, spliced, splices_of}
use plingo.Source.Mapping.{map_old_to_new_same}
use plingo.Source.Revision.{
  SourceRevision, SourceCommand, edit, next_coordinates, source_document, published, published_next,
}

module _ {Text : Type 0} (len_bytes : Text → ℕ) (bytes : Text → List ℕ)
    (len_bytes-length : (text : Text) → len_bytes text ≡ length (bytes text)) where
  -- For texts whose length is the number of their bytes: where a command is published whose edit is
  -- normalized for the text of the committed revision, and whose text has the bytes that the edit
  -- makes of it, a position that the coordinates of the new revision map lies in the committed text
  -- and in the old range of no splice, and the new revision's text has there the byte that the
  -- committed text has at it.
  pub published-map_old_to_new :
      (uri : List ℕ) (p r : SourceRevision Text) (c : SourceCommand Text) (edits : List Edit)
      (at to index : ℕ)
      → source_document len_bytes uri (some p) (some c) ≡ published r
      → c.delta ≡ edit (splices_of edits)
      → IsNormalized (length (bytes p.text)) 0 0 edits
      → bytes c.next_text ≡ spliced (bytes p.text) 0 edits
      → map_old_to_new r.coordinates at ≡ some (to, index)
      → (at < length (bytes p.text))
        × IsUnchanged edits at
        × (get_elem? (bytes p.text) at ≡ get_elem? (bytes r.text) to)
  published-map_old_to_new uri p r c edits at to index h d normalized text e =
      let next = published_next len_bytes uri (some p) c r h in
      let built : build (length (bytes p.text)) (splices_of edits) ≡ r.coordinates =
        ap (λ n. build n (splices_of edits)) (sym (len_bytes-length p.text))
        ∙ sym (ap (next_coordinates len_bytes (some p)) d)
        ∙ ap (λ (q : SourceRevision Text). q.coordinates) next in
      let made : spliced (bytes p.text) 0 edits ≡ bytes r.text =
        sym text ∙ ap (λ (q : SourceRevision Text). bytes q.text) next in
      let (inside, unchanged, same) =
        map_old_to_new_same (bytes p.text) edits normalized at to index
          (ap (λ m. map_old_to_new m at) built ∙ e) in
      (inside, unchanged, same ∙ ap (λ t. get_elem? t to) made)
