-- ===== src/Tape/Node.antt =====
-- `TapeNode` of src/framework/tape.rs, and the two constructors that fill in its cached fields.
use plingo.Prelude.{
  ℕ, suc, ◌+◌, ◌≤◌, ◌<◌, min, max, ◌≡◌, refl, true, List, ◌++◌, length, arith, length-append,
}
use plingo.Tape.OrderKey.{LeafOrderKey}
use plingo.Tape.Between.{◌≺◌, is_positive}
use plingo.Tape.Allocator.{allocate}
use plingo.Tape.Allocating.{Allocating, ◌>>=◌, returns, Does, Does-bind, Does-returns, allocate_lem}
use plingo.Tape.Metric.{SequenceMetric, TapeEntry, add, metric_of}

-- A leaf has an identity, a label, its entries and their metric; a branch an identity, its children,
-- the number of entries, the height, the metric, and the labels of its first and its last leaf.
pub data TapeNode (T : Type 0) : Type 0 where
  leaf : ℕ → LeafOrderKey → List T → SequenceMetric → TapeNode T
  branch :
      ℕ
      → TapeNode T
      → TapeNode T
      → ℕ
      → ℕ
      → SequenceMetric
      → LeafOrderKey
      → LeafOrderKey
      → TapeNode T

abbrev pub leaf_max : ℕ
leaf_max = 64

abbrev pub u16_max : ℕ
u16_max = 65535

-- `u16::saturating_add(1)`
abbrev pub next_height : ℕ → ℕ
next_height h = min u16_max (h + 1)

module _ {T : Type 0} where
  abbrev pub id : TapeNode T → ℕ
  id (leaf i o e m) = i
  id (branch i l r n h m f z) = i

  abbrev pub len : TapeNode T → ℕ
  len (leaf i o e m) = length e
  len (branch i l r n h m f z) = n

  abbrev pub height : TapeNode T → ℕ
  height (leaf i o e m) = 1
  height (branch i l r n h m f z) = h

  abbrev pub node_metric : TapeNode T → SequenceMetric
  node_metric (leaf i o e m) = m
  node_metric (branch i l r n h m f z) = m

  abbrev pub first_order : TapeNode T → LeafOrderKey
  first_order (leaf i o e m) = o
  first_order (branch i l r n h m f z) = f

  abbrev pub last_order : TapeNode T → LeafOrderKey
  last_order (leaf i o e m) = o
  last_order (branch i l r n h m f z) = z

  -- The entries that a node stands for, in order.
  abbrev pub entries_of : TapeNode T → List T
  entries_of (leaf i o e m) = e
  entries_of (branch i l r n h m f z) = entries_of l ++ entries_of r

  -- Neighbours differ in height by one level at most.
  abbrev pub IsBalanced : TapeNode T → Type 0
  IsBalanced (leaf i o e m) = Unit
  IsBalanced (branch i l r n h m f z) =
      IsBalanced l × IsBalanced r × (height l ≤ height r + 1) × (height r ≤ height l + 1)

module _ {T : Type 0} ⦃e : TapeEntry T⦄ where
  -- The branch with an identity; the cached fields are computed from the children.
  abbrev pub branch_of : ℕ → TapeNode T → TapeNode T → TapeNode T
  branch_of i l r =
      branch i l r (len l + len r) (next_height (max (height l) (height r)))
        (add (node_metric l) (node_metric r)) (first_order l) (last_order r)

  abbrev pub leaf_of : ℕ → LeafOrderKey → List T → TapeNode T
  leaf_of i order entries = leaf i order entries (metric_of entries)

  abbrev pub make_leaf : List T → LeafOrderKey → Allocating (TapeNode T)
  make_leaf entries order = allocate >>= λ i. returns (leaf_of i order entries)

  abbrev pub make_branch : TapeNode T → TapeNode T → Allocating (TapeNode T)
  make_branch l r = allocate >>= λ i. returns (branch_of i l r)

  -- Leaves hold 1 to 64 entries under a label that is not 0; labels ascend from leaf to leaf; every
  -- cached field is what the constructors compute, and no height is saturated.
  abbrev pub IsValid : TapeNode T → Type 0
  IsValid (leaf i o entries m) =
      (0 < length entries)
      × (length entries ≤ leaf_max)
      × (is_positive o ≡ true)
      × (m ≡ metric_of entries)
  IsValid (branch i l r n h m f z) =
      IsValid l
      × IsValid r
      × (n ≡ len l + len r)
      × (h ≡ suc (max (height l) (height r)))
      × (m ≡ add (node_metric l) (node_metric r))
      × (f ≡ first_order l)
      × (z ≡ last_order r)
      × (last_order l ≺ first_order r)

  pub len-entries_of : (t : TapeNode T) → IsValid t → len t ≡ length (entries_of t)
  len-entries_of (leaf i o entries m) v = refl
  len-entries_of (branch i l r n h m f z) v = omega (
    arith,
    v.2,
    len-entries_of l v.0,
    len-entries_of r v.1,
    length-append (entries_of l) (entries_of r),
  )

  pub len_pos : (t : TapeNode T) → IsValid t → 0 < len t
  len_pos (leaf i o entries m) v = v.0
  len_pos (branch i l r n h m f z) v = omega (arith, v.2, len_pos l v.0)

  pub height_pos : (t : TapeNode T) → IsValid t → 0 < height t
  height_pos (leaf i o entries m) v = omega arith
  height_pos (branch i l r n h m f z) v = omega (arith, v.3)

  pub make_leaf_lem :
      (entries : List T) (order : LeafOrderKey)
      → Does 1 (make_leaf entries order) (λ t. (i : ℕ) × (t ≡ leaf_of i order entries))
  make_leaf_lem entries order =
      Does-bind 1 0 allocate _ allocate_lem
        (λ i _. Does-returns 0 (leaf_of i order entries) (i, refl))

  pub make_branch_lem :
      (l r : TapeNode T) → Does 1 (make_branch l r) (λ t. (i : ℕ) × (t ≡ branch_of i l r))
  make_branch_lem l r =
      Does-bind 1 0 allocate _ allocate_lem (λ i _. Does-returns 0 (branch_of i l r) (i, refl))
