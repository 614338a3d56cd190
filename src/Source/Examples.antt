-- ===== src/Source/Examples.antt =====
-- The theorems about src/framework/source.rs at concrete texts.
use plingo.Prelude.{
  Option, leb, le→leb, if◌then◌else◌, ◌⊎◌, ◌-◌, false, ℕ, ◌≤◌, ◌<◌, ◌≡◌, refl, none, some, List, [],
  ◌∷◌, ◌++◌, length, get_elem?, take, drop, arith,
}
use plingo.Source.Coordinates.{byte_range, build, map_old_to_new}
use plingo.Source.Text.{Edit, spliced, splices_of, IsNormalized, IsUnchanged}
use plingo.Source.Mapping.{map_old_to_new_same, map_old_to_new_total}
use plingo.Source.Rope.{RopeApi, texts_of, apply_splices, bytes-apply_splices}
use plingo.Source.Normalize.{Repl, overlapping, normalize_replacements}
use plingo.Source.NormalizeLaws.{AllInside, normalize_replacements-IsNormalized}
use plingo.Source.Published.{published-map_old_to_new}
use plingo.Source.NormalizeText.{normalize_replacements_text}
use plingo.Source.Revision.{
  SourceRevision, SourceCommand, load, edit, no_coordinates, source_document, published, stale,
  next_revision, source_document_once,
}

-- A rope of single-byte characters.
abbrev ascii : RopeApi
ascii = record {
  Rope = List ℕ;
  bytes = λ r. r;
  byte_to_char = λ r at. at;
  remove = λ r s e. take s r ++ drop e r;
  insert = λ r at text. take at r ++ (text ++ drop at r);
  IsBoundary = λ r at. Unit;
  bytes-remove = λ r s e h k a b. refl;
  bytes-insert = λ r at text h a. refl;
  remove_front = λ r at s e h a. (tt, refl);
  insert_front = λ r at s text h a. tt;
}

abbrev old : List ℕ
old = 10 ∷ 11 ∷ 12 ∷ 13 ∷ 14 ∷ []

-- Bytes 1 and 2 become 9, and 8, 8 comes in front of byte 4.
abbrev edits : List Edit
edits =
    (record { old_range = byte_range 1 3; new_range = byte_range 1 2 }, 9 ∷ [])
    ∷ (record { old_range = byte_range 4 4; new_range = byte_range 3 5 }, 8 ∷ 8 ∷ [])
    ∷ []

edits-IsNormalized : IsNormalized (length old) 0 0 edits
edits-IsNormalized = omega arith

maps_3 : map_old_to_new (build 5 (splices_of edits)) 3 ≡ some (2, 1)
unfolding map_old_to_new build
maps_3 = refl

map_old_to_new_same_example :
    (3 < length old) × IsUnchanged edits 3 × (get_elem? old 3 ≡ get_elem? (spliced old 0 edits) 2)
map_old_to_new_same_example = map_old_to_new_same old edits edits-IsNormalized 3 2 1 maps_3

map_old_to_new_total_example :
    (to : ℕ) × (index : ℕ) × (map_old_to_new (build 5 (splices_of edits)) 4 ≡ some (to, index))
map_old_to_new_total_example =
    map_old_to_new_total old edits edits-IsNormalized 4 (omega arith) (omega arith)

bytes-apply_splices_example :
    apply_splices ascii old (splices_of edits) (texts_of edits) ≡ 10 ∷ 9 ∷ 13 ∷ 8 ∷ 8 ∷ 14 ∷ []
bytes-apply_splices_example =
    bytes-apply_splices ascii old edits edits-IsNormalized ((tt, tt, (tt, tt, tt)))

abbrev opened : SourceRevision (List ℕ)
opened = record {
  document = record { id = 7; uri = 1 ∷ [] };
  id = 1;
  previous = none;
  text = old;
  delta = load 5;
  coordinates = no_coordinates;
}

abbrev command : SourceCommand (List ℕ)
command = record {
  fresh_document_id = none;
  base = some (7, 1);
  delta = edit (splices_of edits);
  next_text = spliced old 0 edits;
}

source_document_once_example :
    ((command.base ≡ some (7, 1))
      × ((r : SourceRevision (List ℕ)) × (source_document length
              (1 ∷ [])
              (some opened)
              (some command)
            ≡ published r)
          × (r.text ≡ spliced old 0 edits)
          × (source_document length (1 ∷ []) (some r) (some command) ≡ stale)))
    ⊎ ((¬ (command.base ≡ some (7, 1)))
        × (source_document length (1 ∷ []) (some opened) (some command) ≡ stale))
source_document_once_example = source_document_once length (1 ∷ []) (some opened) command

abbrev edited : SourceRevision (List ℕ)
edited = next_revision length (1 ∷ []) (some opened) command

accepted : source_document length (1 ∷ []) (some opened) (some command) ≡ published edited
unfolding source_document
accepted = refl

published-map_old_to_new_example :
    (3 < 5) × IsUnchanged edits 3 × (get_elem? old 3 ≡ get_elem? edited.text 2)
published-map_old_to_new_example =
    published-map_old_to_new length (λ text. text) (λ text. refl) (1 ∷ []) opened edited command
      edits 3 2 1 accepted refl edits-IsNormalized refl maps_3

-- Two adjacent replacements, and one that puts 14 back.
abbrev replacements : List Repl
replacements =
    record { old_range = byte_range 0 1; inserted = 20 ∷ 21 ∷ [] }
    ∷ record { old_range = byte_range 1 2; inserted = [] }
    ∷ record { old_range = byte_range 4 5; inserted = 14 ∷ [] }
    ∷ []

replacements-AllInside : AllInside (length old) replacements
replacements-AllInside =
    (omega arith, omega arith, (omega arith, omega arith, (omega arith, omega arith, tt)))

apart : overlapping replacements ≡ false
unfolding overlapping
apart = refl

abbrev slice_of : ℕ → ℕ → Option (List ℕ)
slice_of from to = if leb to 5 then some (take (to - from) (drop from old)) else none

in_bounds : (from to : ℕ) → to ≤ 5 → slice_of from to ≡ some (take (to - from) (drop from old))
in_bounds from to k = rw (le→leb to 5 k) refl

normalize_replacements-IsNormalized_example :
    (edits : List Edit) × (normalize_replacements slice_of replacements ≡ some edits)
    × IsNormalized 5 0 0 edits
normalize_replacements-IsNormalized_example =
    normalize_replacements-IsNormalized slice_of (length old) replacements
      (λ from to h k. (take (to - from) (drop from old), in_bounds from to k))
      replacements-AllInside apart

normalize_replacements_text_example :
    (edits : List Edit) × (normalize_replacements slice_of replacements ≡ some edits)
    × (spliced old 0 edits ≡ 20 ∷ 21 ∷ 12 ∷ 13 ∷ 14 ∷ [])
normalize_replacements_text_example =
    normalize_replacements_text old slice_of (λ from to h k. in_bounds from to k) replacements
      replacements-AllInside apart
