-- ===== src/Source/Coordinates.antt =====
-- `SourceSplice`, `UnchangedIsland` and `SourceCoordinateMap` of src/framework/source.rs.
use plingo.Prelude.{
  ℕ, suc, ◌+◌, ◌-◌, ◌^◌, min, Bool, ◌&&◌, ltb, leb, if◌then◌else◌, Option, none, some, ◌>>=◌, List,
  [], ◌∷◌, map, get_elem?,
}

-- `isize`: `negsuc n` is -(n + 1).
pub data ℤ : Type 0 where
  pos : ℕ → ℤ
  negsuc : ℕ → ℤ

-- `isize::MAX` on a 64-bit machine.
abbrev pub isize_max : ℕ
isize_max = 2 ^ 63 - 1

-- `Range<usize>`
pub record ByteRange : Type 0 where
  pub start : ℕ
  pub end : ℕ

abbrev pub byte_range : ℕ → ℕ → ByteRange
byte_range s e = record { start = s; end = e }

-- `Range::contains`
abbrev pub contains : ByteRange → ℕ → Bool
contains r at = leb r.start at && ltb at r.end

pub record SourceSplice : Type 0 where
  pub old_range : ByteRange
  pub new_range : ByteRange

pub record UnchangedIsland : Type 0 where
  pub old : ByteRange
  pub new : ByteRange
  pub delta : ℤ

pub record SourceCoordinateMap : Type 0 where
  pub islands : List UnchangedIsland
  pub old_starts : List ℕ
  pub new_starts : List ℕ

unfoldable pub signed_offset : ℕ → ℕ → ℤ
signed_offset new_start old_start =
    if leb old_start new_start
    then pos (min isize_max (new_start - old_start))
    else negsuc (min isize_max (old_start - new_start) - 1)

-- The island from the two cursors, `size` bytes long.
abbrev pub island : ℕ → ℕ → ℕ → UnchangedIsland
island old_cursor new_cursor size = record {
  old = byte_range old_cursor (old_cursor + size);
  new = byte_range new_cursor (new_cursor + size);
  delta = signed_offset new_cursor old_cursor;
}

-- The loop of `build` over the splices, from two cursors, and the island behind the last splice.
unfoldable pub islands_from : ℕ → ℕ → ℕ → List SourceSplice → List UnchangedIsland
islands_from old_len old_cursor new_cursor [] =
    if ltb old_cursor old_len then island old_cursor new_cursor (old_len - old_cursor) ∷ [] else []
islands_from old_len old_cursor new_cursor (s ∷ splices) =
    let rest = islands_from old_len s.old_range.end s.new_range.end splices in
    if ltb old_cursor s.old_range.start
    then island old_cursor new_cursor (s.old_range.start - old_cursor) ∷ rest
    else rest

-- The length of the new text enters the assertions of debug builds only.
unfoldable pub build : ℕ → List SourceSplice → SourceCoordinateMap
unfolding islands_from
build old_len splices =
    let islands = islands_from old_len 0 0 splices in
    record {
      islands = islands;
      old_starts = map (λ i. i.old.start) islands;
      new_starts = map (λ i. i.new.start) islands;
    }

-- `partition_point(|start| *start <= at)`, on a slice that the test partitions.
unfoldable pub partition_point : List ℕ → ℕ → ℕ
partition_point [] at = 0
partition_point (start ∷ starts) at = if leb start at then suc (partition_point starts at) else 0

unfoldable pub map_old_to_new : SourceCoordinateMap → ℕ → Option (ℕ × ℕ)
unfolding partition_point
map_old_to_new m at =
    let index = partition_point m.old_starts at - 1 in
    get_elem? m.islands index >>= λ i.
    if contains i.old at then some (i.new.start + (at - i.old.start), index) else none
