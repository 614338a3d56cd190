-- ===== src/Source/Normalize.antt =====
-- The second half of `normalize_edits` of src/framework/source.rs, from the replacements on: overlaps
-- are rejected, new ranges computed, replacements that change nothing dropped, and adjacent splices
-- merged. `none` is the error, or the panic of a slice out of bounds. The bytes of
-- `base.slice(start..end)` are a parameter, `none` where ropey panics.
use plingo.Prelude.{
  ℕ, ◌+◌, ◌-◌, Bool, true, false, ◌&&◌, ◌||◌, ◌==◌, ltb, leb, if◌then◌else◌, Option, none, some,
  ◌>>=◌, List, [], ◌∷◌, ◌++◌, length,
}
use plingo.Source.Coordinates.{ByteRange, byte_range, SourceSplice}
use plingo.Source.Text.{Edit}

-- `Repl`, without the ordinal, which is always 0.
pub record Repl : Type 0 where
  pub old_range : ByteRange
  pub inserted : List ℕ

-- Some replacement ends behind the start of the next one.
unfoldable pub overlapping : List Repl → Bool
overlapping [] = false
overlapping (r ∷ []) = false
overlapping (r ∷ s ∷ replacements) =
    ltb s.old_range.start r.old_range.end || overlapping (s ∷ replacements)

-- `zip(..).all(..)`, which stops at the end of the shorter side.
abbrev pub zip_equal : List ℕ → List ℕ → Bool
zip_equal [] bytes = true
zip_equal (a ∷ inserted) [] = true
zip_equal (a ∷ inserted) (b ∷ bytes) = a == b && zip_equal inserted bytes

-- The replacement puts back what was there; the text is sliced only where the lengths agree.
abbrev pub changes_nothing : (ℕ → ℕ → Option (List ℕ)) → Repl → Option Bool
changes_nothing slice r =
    let bytes = slice r.old_range.start r.old_range.end in
    if length r.inserted == (r.old_range.end - r.old_range.start)
    then (bytes >>= λ old. some (zip_equal r.inserted old))
    else some false

abbrev pub splice_at : Repl → ℕ → SourceSplice
splice_at r new_start = record {
  old_range = r.old_range;
  new_range = byte_range new_start (new_start + length r.inserted);
}

-- The loop with the running shift, which is `gained - lost`.
unfoldable pub shift_splices : (ℕ → ℕ → Option (List ℕ)) → List Repl → ℕ → ℕ → Option (List Edit)
shift_splices slice [] gained lost = some []
shift_splices slice (r ∷ replacements) gained lost =
    let same = shift_splices slice replacements gained lost in
    let size = r.old_range.end - r.old_range.start in
    let later = shift_splices slice replacements (gained + length r.inserted) (lost + size) in
    let new_start = r.old_range.start + gained - lost in
    let pushed = later >>= λ edits. some ((splice_at r new_start, r.inserted) ∷ edits) in
    if leb lost (r.old_range.start + gained)
    then (changes_nothing slice r >>= λ equal. if equal then same else pushed)
    else none

abbrev pub adjacent : SourceSplice → SourceSplice → Bool
adjacent last s = last.old_range.end == s.old_range.start && last.new_range.end == s.new_range.start

abbrev pub merged : SourceSplice → SourceSplice → SourceSplice
merged last s = record {
  old_range = byte_range last.old_range.start s.old_range.end;
  new_range = byte_range last.new_range.start s.new_range.end;
}

-- The merging loop, with the splice and the text that were pushed last.
unfoldable pub merge_from : SourceSplice → List ℕ → List Edit → List Edit
merge_from last last_text [] = (last, last_text) ∷ []
merge_from last last_text ((s, text) ∷ edits) =
    let joined = merge_from (merged last s) (last_text ++ text) edits in
    let apart = merge_from s text edits in
    if adjacent last s then joined else (last, last_text) ∷ apart

unfoldable pub merge_adjacent : List Edit → List Edit
unfolding merge_from
merge_adjacent [] = []
merge_adjacent ((s, text) ∷ edits) = merge_from s text edits

unfoldable pub normalize_replacements : (ℕ → ℕ → Option (List ℕ)) → List Repl → Option (List Edit)
unfolding overlapping shift_splices merge_adjacent
normalize_replacements slice replacements =
    if overlapping replacements
    then none
    else (shift_splices slice replacements 0 0 >>= λ edits. some (merge_adjacent edits))
