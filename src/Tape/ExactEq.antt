-- ===== src/Tape/ExactEq.antt =====
-- `exact_eq` of src/framework/tape.rs. Whether two nodes are one by pointer, and whether two entries are
-- equal, are parameters. Trees of different shapes are compared by what their iterators yield.
use plingo.Prelude.{
  ◌≡◌, ◌⊎◌, ◌↔◌, refl, ap, ap₂, Bool, true, false, ◌&&◌, ◌||◌, ◌==◌, ==_iff, inl, inr, List, [],
  ◌∷◌, ◌++◌, none, some,
}
use plingo.Tape.Metric.{SequenceMetric}
use plingo.Tape.Node.{TapeNode, leaf, branch, len, node_metric, entries_of}
use plingo.Tape.Stable.{StableTape, tape_entries}

abbrev pub metric_eq : SequenceMetric → SequenceMetric → Bool
metric_eq a b =
    (a.lexical_count == b.lexical_count)
    && ((a.semantic_count == b.semantic_count)
        && ((a.source_bytes == b.source_bytes) && (a.structural_hash == b.structural_hash)))

and_both : (a b : Bool) → a && b ≡ true → (a ≡ true) × (b ≡ true)
and_both true b h = (refl, h)
and_both false b h = cc

or_either : (a b : Bool) → a || b ≡ true → (a ≡ true) ⊎ (b ≡ true)
or_either true b h = inl refl
or_either false b h = inr h

metric_eq_refl : (m : SequenceMetric) → metric_eq m m ≡ true
metric_eq_refl m =
    rw
      (
        (==_iff m.lexical_count m.lexical_count).1 refl,
        (==_iff m.semantic_count m.semantic_count).1 refl,
        (==_iff m.source_bytes m.source_bytes).1 refl,
        (==_iff m.structural_hash m.structural_hash).1 refl,
      )
      refl

or_true_right : (b : Bool) → b || true ≡ true
or_true_right true = refl
or_true_right false = refl

module _ {T : Type 0} (ptr_eq : TapeNode T → TapeNode T → Bool) (entry_eq : T → T → Bool) where
  abbrev pub entries_eq : List T → List T → Bool
  entries_eq [] [] = true
  entries_eq [] (y ∷ ys) = false
  entries_eq (x ∷ xs) [] = false
  entries_eq (x ∷ xs) (y ∷ ys) = entry_eq x y && entries_eq xs ys

  -- Lengths and metrics reject before anything is compared.
  abbrev pub may_be_equal : TapeNode T → TapeNode T → Bool
  may_be_equal l r = (len l == len r) && metric_eq (node_metric l) (node_metric r)

  unfoldable pub nodes_equal : TapeNode T → TapeNode T → Bool
  nodes_equal (leaf i o x m) (leaf j p y k) =
      ptr_eq (leaf i o x m) (leaf j p y k)
      || (may_be_equal (leaf i o x m) (leaf j p y k) && entries_eq x y)
  nodes_equal (leaf i o x m) (branch j l r n h k f z) =
      ptr_eq (leaf i o x m) (branch j l r n h k f z)
      || (may_be_equal (leaf i o x m) (branch j l r n h k f z)
          && entries_eq x (entries_of l ++ entries_of r))
  nodes_equal (branch i l r n h m f z) (leaf j p y k) =
      ptr_eq (branch i l r n h m f z) (leaf j p y k)
      || (may_be_equal (branch i l r n h m f z) (leaf j p y k)
          && entries_eq (entries_of l ++ entries_of r) y)
  nodes_equal (branch i l r n h m f z) (branch j a b q g k c w) =
      ptr_eq (branch i l r n h m f z) (branch j a b q g k c w)
      || (may_be_equal (branch i l r n h m f z) (branch j a b q g k c w)
          && (nodes_equal l a && nodes_equal r b))

  unfoldable pub exact_eq : StableTape T → StableTape T → Bool
  unfolding nodes_equal
  exact_eq none none = true
  exact_eq none (some right) = false
  exact_eq (some left) none = false
  exact_eq (some left) (some right) = nodes_equal left right

  -- What the comparison of pointers and of entries is relied on for.
  abbrev pub ComparesPointers : Type 0
  ComparesPointers = (a b : TapeNode T) → ptr_eq a b ≡ true → a ≡ b

  abbrev pub ComparesEntries : Type 0
  ComparesEntries = (a b : T) → (entry_eq a b ≡ true) ↔ (a ≡ b)

  entries_eq_sound : ComparesEntries → (x y : List T) → entries_eq x y ≡ true → x ≡ y
  entries_eq_sound c [] [] h = refl
  entries_eq_sound c [] (b ∷ y) h = cc
  entries_eq_sound c (a ∷ x) [] h = cc
  entries_eq_sound c (a ∷ x) (b ∷ y) h =
      let (p, q) = and_both (entry_eq a b) (entries_eq x y) h in
      ap₂ ◌∷◌ ((c a b).0 p) (entries_eq_sound c x y q)

  entries_eq_refl : ComparesEntries → (x : List T) → entries_eq x x ≡ true
  entries_eq_refl c [] = refl
  entries_eq_refl c (a ∷ x) = rw ((c a a).1 refl, entries_eq_refl c x) refl

  -- The rest of the comparison, where the pointers differ.
  past_pointer :
      (l r : TapeNode T) (rest : Bool)
      → ComparesPointers
      → (rest ≡ true → entries_of l ≡ entries_of r)
      → ptr_eq l r || (may_be_equal l r && rest) ≡ true
      → entries_of l ≡ entries_of r
  past_pointer l r rest p sound h = elim (or_either (ptr_eq l r) (may_be_equal l r && rest) h) [
    | inl same ↦ ap entries_of (p l r same)
    | inr equal ↦ sound (and_both (may_be_equal l r) rest equal).1
  ]

  nodes_equal_sound :
      (l r : TapeNode T)
      → ComparesPointers
      → ComparesEntries
      → nodes_equal l r ≡ true
      → entries_of l ≡ entries_of r
  unfolding nodes_equal
  nodes_equal_sound (leaf i o x m) (leaf j p y k) a c h =
      past_pointer (leaf i o x m) (leaf j p y k) (entries_eq x y) a (entries_eq_sound c x y) h
  nodes_equal_sound (leaf i o x m) (branch j l r n g k f z) a c h =
      past_pointer (leaf i o x m) (branch j l r n g k f z)
        (entries_eq x (entries_of l ++ entries_of r)) a
        (entries_eq_sound c x (entries_of l ++ entries_of r)) h
  nodes_equal_sound (branch i l r n g m f z) (leaf j p y k) a c h =
      past_pointer (branch i l r n g m f z) (leaf j p y k)
        (entries_eq (entries_of l ++ entries_of r) y) a
        (entries_eq_sound c (entries_of l ++ entries_of r) y) h
  nodes_equal_sound (branch i l r n g m f z) (branch j u v q e k s w) a c h =
      past_pointer (branch i l r n g m f z) (branch j u v q e k s w)
        (nodes_equal l u && nodes_equal r v) a
        (λ both.
          let (p, q) = and_both (nodes_equal l u) (nodes_equal r v) both in
          ap₂ ◌++◌ (nodes_equal_sound l u a c p) (nodes_equal_sound r v a c q))
        h

  -- Two trees of one shape, whose leaves hold the same entries, whatever their identities and labels.
  abbrev pub SameShape : TapeNode T → TapeNode T → Type 0
  SameShape (leaf i o x m) (leaf j p y k) = (x ≡ y) × (m ≡ k)
  SameShape (leaf i o x m) (branch j l r n h k f z) = ⊥
  SameShape (branch i l r n h m f z) (leaf j p y k) = ⊥
  SameShape (branch i l r n h m f z) (branch j u v q g k c w) =
      (n ≡ q) × (m ≡ k) × SameShape l u × SameShape r v

  nodes_equal_same : (l r : TapeNode T) → ComparesEntries → SameShape l r → nodes_equal l r ≡ true
  unfolding nodes_equal
  nodes_equal_same (leaf i o x m) (leaf j p y k) c s =
      rw
        (
          s.0,
          s.1,
          (==_iff (len (leaf j p y k)) (len (leaf j p y k))).1 refl,
          metric_eq_refl k,
          entries_eq_refl c y,
        )
        (or_true_right _)
  nodes_equal_same (leaf i o x m) (branch j l r n h k f z) c s = elim s [ ]
  nodes_equal_same (branch i l r n h m f z) (leaf j p y k) c s = elim s [ ]
  nodes_equal_same (branch i l r n h m f z) (branch j u v q g k a w) c s =
      rw
        (
          s.0,
          s.1,
          (==_iff q q).1 refl,
          metric_eq_refl k,
          nodes_equal_same l u c s.2,
          nodes_equal_same r v c s.3,
        )
        (or_true_right _)

  abbrev pub SameShapes : StableTape T → StableTape T → Type 0
  SameShapes none none = Unit
  SameShapes none (some right) = ⊥
  SameShapes (some left) none = ⊥
  SameShapes (some left) (some right) = SameShape left right

  -- It calls tapes equal that hold the same entries in trees of one shape with the same cached fields.
  pub exact_eq_same : (a b : StableTape T) → ComparesEntries → SameShapes a b → exact_eq a b ≡ true
  unfolding exact_eq
  exact_eq_same none none c s = refl
  exact_eq_same none (some right) c s = elim s [ ]
  exact_eq_same (some left) none c s = elim s [ ]
  exact_eq_same (some left) (some right) c s = nodes_equal_same left right c s

  -- Where pointers and entries are compared faithfully, tapes that `exact_eq` calls equal hold the same
  -- entries.
  pub exact_eq_lem :
      (a b : StableTape T)
      → ComparesPointers
      → ComparesEntries
      → exact_eq a b ≡ true
      → tape_entries a ≡ tape_entries b
  unfolding exact_eq
  exact_eq_lem none none p c h = refl
  exact_eq_lem none (some right) p c h = cc
  exact_eq_lem (some left) none p c h = cc
  exact_eq_lem (some left) (some right) p c h = nodes_equal_sound left right p c h
