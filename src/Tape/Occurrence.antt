-- ===== src/Tape/Occurrence.antt =====
-- Stable occurrences of src/framework/tape.rs: where an entry is, and its rank from there. The
-- persistent index (a `RadixMap`) is a function from identities to locations.
use plingo.Prelude.{
  ℕ, ◌+◌, ◌-◌, ◌≡◌, ◌&&◌, ◌==◌, List, [], ltb, ◌⊎◌, Option, none, some, if◌then◌else◌, ◌>>=◌,
}
use plingo.Tape.Metric.{TapeEntry}
use plingo.Tape.Node.{TapeNode, leaf, branch, id, len}
use plingo.Tape.Search.{OccurrenceLocation, rank_of_order, leaf_at_order, collect_locations}
use plingo.Tape.Stable.{StableTape, tape_len, get}

module _ {T : Type 0} where
  abbrev pub locations_in_range :
      ⦃e : TapeEntry T⦄ → StableTape T → ℕ → ℕ → Option (List (ℕ × OccurrenceLocation))
  locations_in_range none first past = some []
  locations_in_range (some root) first past = collect_locations root 0 first past

  -- The checks at the end of `rank_of_id`, once the leaf and its rank are found.
  abbrev pub checked_rank : OccurrenceLocation → ℕ → TapeNode T → Option ℕ
  checked_rank location rank found =
      if (id found == location.leaf_id) && ltb location.slot (len found)
      then some (rank + location.slot)
      else none

  abbrev pub rank_of_location : TapeNode T → OccurrenceLocation → Option ℕ
  rank_of_location root location = do
    rank ← rank_of_order root location.order 0
    found ← leaf_at_order root location.order
    checked_rank location rank found

  unfoldable pub rank_of_id : StableTape T → ℕ → (ℕ → Option OccurrenceLocation) → Option ℕ
  unfolding rank_of_order leaf_at_order
  rank_of_id none i index = none
  rank_of_id (some root) i index = index i >>= rank_of_location root

  abbrev pub predecessor_id :
      ⦃e : TapeEntry T⦄ → StableTape T → ℕ → (ℕ → Option OccurrenceLocation) → Option ℕ
  predecessor_id ⦃e⦄ tape i index = do
    rank ← rank_of_id tape i index
    before ← if rank == 0 then none else some (rank - 1)
    entry ← get tape before
    some (e.stable_id entry)

  abbrev pub successor_id :
      ⦃e : TapeEntry T⦄ → StableTape T → ℕ → (ℕ → Option OccurrenceLocation) → Option ℕ
  successor_id ⦃e⦄ tape i index = do
    rank ← rank_of_id tape i index
    after ← if ltb (rank + 1) (tape_len tape) then some (rank + 1) else none
    entry ← get tape after
    some (e.stable_id entry)

  -- A leaf stands in a tree, its first entry at a rank.
  abbrev pub LeafAt : TapeNode T → ℕ → TapeNode T → Type 0
  LeafAt (leaf i o x m) k s = (k ≡ 0) × (s ≡ leaf i o x m)
  LeafAt (branch i l r n h m f z) k s = LeafAt l k s ⊎ ((j : ℕ) × (k ≡ len l + j) × LeafAt r j s)
