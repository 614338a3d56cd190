-- ===== src/Grammar/FirstExtend.antt =====
-- Which bits `extend_first_from_sequence` of src/framework/parse/analyze.rs adds.
use plingo.Prelude.{
  ℕ, zero, suc, ◌+◌, ◌≤◌, ◌<◌, ◌≡◌, refl, sym, ap, subst, ◌∙◌, Bool, true, false, ◌||◌,
  if◌then◌else◌, lt→ltb, Option, none, some, List, [], ◌∷◌, length, get_elem?, set, length-set,
  get_elem?-inside, arith, inl, inr, ◌⊎◌,
}
use plingo.Grammar.Symbols.{TerminalId, Symbol, terminal, non_terminal, epsilon, Grammar, InRange}
use plingo.Grammar.Nullable.{BitVec, all_nullable}
use plingo.Grammar.NullableLaws.{get_elem?-set}
use plingo.Grammar.First.{
  index_terminals, terminal_index, terminal_eq, union_bits, extend_first_from_sequence,
}

abbrev pub Has : BitVec → ℕ → Type 0
Has v k = get_elem? v k ≡ some true

pub set-Has : (v : BitVec) (i : ℕ) → i < length v → Has (set v i true) i
set-Has [] i h = absurd (omega arith)
set-Has (b ∷ v) zero h = refl
set-Has (b ∷ v) (suc i) h = set-Has v i (omega arith)

pub set-keeps : (v : BitVec) (i k : ℕ) → Has v k → Has (set v i true) k
set-keeps [] i k h = h
set-keeps (b ∷ v) zero zero h = refl
set-keeps (b ∷ v) zero (suc k) h = h
set-keeps (b ∷ v) (suc i) zero h = h
set-keeps (b ∷ v) (suc i) (suc k) h = set-keeps v i k h

-- A union of rows has the bits of both.
union_bits_lem :
    (target row : BitVec)
    → length row ≤ length target
    → (w : BitVec) × (union_bits target row ≡ some w)
      × (length w ≡ length target)
      × ((k : ℕ) → Has w k → Has target k ⊎ Has row k)
      × ((k : ℕ) → Has target k → Has w k)
      × ((k : ℕ) → Has row k → Has w k)
unfolding union_bits
union_bits_lem target [] h = (target, refl, refl, λ k e. inl e, λ k e. e, λ k e. cc)
union_bits_lem [] (c ∷ row) h = absurd (omega arith)
union_bits_lem (b ∷ target) (c ∷ row) h =
    let (w, e, l, from, left, right) = union_bits_lem target row (omega arith) in
    (
      (b || c) ∷ w,
      rw e refl,
      ap suc l,
      from_cons b c w from,
      left_cons b c w left,
      right_cons b c w right,
    )
  where
    from_cons :
        (b c : Bool) (w : BitVec)
        → ((k : ℕ) → Has w k → Has target k ⊎ Has row k)
        → (k : ℕ) → Has ((b || c) ∷ w) k
        → Has (b ∷ target) k ⊎ Has (c ∷ row) k
    from_cons true c w f zero e = inl refl
    from_cons false c w f zero e = inr e
    from_cons b c w f (suc k) e = f k e

    left_cons :
        (b c : Bool) (w : BitVec)
        → ((k : ℕ) → Has target k → Has w k)
        → (k : ℕ) → Has (b ∷ target) k
        → Has ((b || c) ∷ w) k
    left_cons true c w f zero e = refl
    left_cons false c w f zero e = cc
    left_cons b c w f (suc k) e = f k e

    right_cons :
        (b c : Bool) (w : BitVec)
        → ((k : ℕ) → Has row k → Has w k)
        → (k : ℕ) → Has (c ∷ row) k
        → Has ((b || c) ∷ w) k
    right_cons true c w f zero e = refl
    right_cons false c w f zero e = e
    right_cons b c w f (suc k) e = f k e

pub index_terminals-lt :
    (terminals : List TerminalId) (start : ℕ) (t : TerminalId) (i : ℕ)
    → index_terminals terminals start t ≡ some i
    → i < start + length terminals
index_terminals-lt [] start t i e = cc
index_terminals-lt (s ∷ terminals) start t i e =
    elim (found (index_terminals terminals (suc start) t) (terminal_eq s t) e) [
      | inl h ↦ omega (arith, index_terminals-lt terminals (suc start) t i h)
      | inr h ↦ omega (arith, h)
    ]
  where
    found :
        (later : Option ℕ) (same : Bool)
        → elim later [ some k ↦ some k | none ↦ if same then some start else none ] ≡ some i
        → (later ≡ some i) ⊎ (start ≡ i)
    found (some k) same h = inl h
    found none true h = inr cc
    found none false h = cc

-- Every terminal of the sequence is one of the grammar.
abbrev pub Registered : Grammar → List Symbol → Type 0
Registered g [] = Unit
Registered g (terminal t ∷ sequence) =
    ((i : ℕ) × (terminal_index g t ≡ some i)) × Registered g sequence
Registered g (non_terminal id ∷ sequence) = Registered g sequence
Registered g (epsilon ∷ sequence) = Registered g sequence

-- There is a row of the grammar's width for each non-terminal.
abbrev pub Shaped : Grammar → List BitVec → Type 0
Shaped g rows =
    (length rows ≡ length g.non_terminals)
    × ((id : ℕ) (row : BitVec) → get_elem? rows id ≡ some row → length row ≡ length g.terminals)

module _ (g : Grammar) (is_nullable : BitVec) (rows : List BitVec) where
  -- What the sequence contributes to FIRST, by the rows and the nullable bits.
  abbrev pub Hits : List Symbol → ℕ → Type 0
  Hits [] i = ⊥
  Hits (terminal t ∷ sequence) i = terminal_index g t ≡ some i
  Hits (epsilon ∷ sequence) i = Hits sequence i
  Hits (non_terminal id ∷ sequence) i =
      ((row : BitVec) × (get_elem? rows id ≡ some row) × Has row i)
      ⊎ (Has is_nullable id × Hits sequence i)

  abbrev pub Extended : BitVec → List Symbol → BitVec → Bool → Type 0
  Extended target sequence w b =
      (length w ≡ length target)
      × ((k : ℕ) → Has w k → Has target k ⊎ Hits sequence k)
      × ((k : ℕ) → Has target k → Has w k)
      × ((k : ℕ) → Hits sequence k → Has w k)
      × (all_nullable is_nullable sequence ≡ some b)

  abbrev Extends : BitVec → List Symbol → Type 0
  Extends target sequence =
      (w : BitVec) × (b : Bool) × (extend_first_from_sequence g is_nullable rows target sequence
        ≡ some (w, b))
      × Extended target sequence w b

  -- A row of FIRST is added, and what follows it where the non-terminal can vanish.
  extend_cons :
      (target : BitVec) (id : ℕ) (sequence : List Symbol) (row bits : BitVec) (bit : Bool)
      → get_elem? rows id ≡ some row
      → get_elem? is_nullable id ≡ some bit
      → union_bits target row ≡ some bits
      → length bits ≡ length target
      → ((k : ℕ) → Has bits k → Has target k ⊎ Has row k)
      → ((k : ℕ) → Has target k → Has bits k)
      → ((k : ℕ) → Has row k → Has bits k)
      → (w : BitVec) (b : Bool)
      → extend_first_from_sequence g is_nullable rows bits sequence ≡ some (w, b)
      → Extended bits sequence w b
      → Extends target (non_terminal id ∷ sequence)
  unfolding extend_first_from_sequence all_nullable
  extend_cons target id sequence row bits true at known e size from left right w b later ext = (
    w,
    b,
    rw (at, e, known) later,
    (
      ext.0 ∙ size,
      λ k h. elim (ext.1 k h) [
        | inl p ↦ elim (from k p) [ inl q ↦ inl q | inr q ↦ inr (inl (row, at, q)) ]
        | inr p ↦ inr (inr (known, p))
      ],
      λ k h. ext.2 k (left k h),
      λ k h. elim h [
        | inl p ↦ let same : p.0 ≡ row = cc in ext.2 k (right k (subst (λ r. Has r k) same p.2))
        | inr p ↦ ext.3 k p.1
      ],
      rw known ext.4,
    ),
  )
  extend_cons target id sequence row bits false at known e size from left right w b later ext = (
    bits,
    false,
    rw (at, e, known) refl,
    (
      size,
      λ k h. elim (from k h) [ inl q ↦ inl q | inr q ↦ inr (inl (row, at, q)) ],
      left,
      λ k h. elim h [
        | inl p ↦ let same : p.0 ≡ row = cc in right k (subst (λ r. Has r k) same p.2)
        | inr p ↦ cc
      ],
      rw known refl,
    ),
  )

  pub extend_first_from_sequence_lem :
      (target : BitVec) (sequence : List Symbol)
      → Shaped g rows
      → length is_nullable ≡ length g.non_terminals
      → InRange (length g.non_terminals) sequence
      → Registered g sequence
      → length target ≡ length g.terminals
      → (w : BitVec) × (b : Bool) × (extend_first_from_sequence g is_nullable rows target sequence
          ≡ some (w, b))
        × Extended target sequence w b
  unfolding extend_first_from_sequence all_nullable terminal_index
  extend_first_from_sequence_lem target [] shape size range known l =
      (target, true, refl, (refl, λ k e. inl e, λ k e. e, λ k e. absurd e, refl))
  extend_first_from_sequence_lem target (epsilon ∷ sequence) shape size range known l =
      extend_first_from_sequence_lem target sequence shape size range known l
  extend_first_from_sequence_lem target (terminal t ∷ sequence) shape size range known l =
      let (i, e) = known.0 in
      let bound = index_terminals-lt g.terminals 0 t i e in
      let inside : i < length target = omega (arith, bound, l) in
      (
        set target i true,
        false,
        rw (e, lt→ltb i (length target) inside) refl,
        (
          length-set target i true,
          λ k h. elim (get_elem?-set target i k h) [
            | inl p ↦ inl p
            | inr p ↦ inr (e ∙ ap some (sym p))
          ],
          λ k h. set-keeps target i k h,
          λ k h.
              let same : i ≡ k = cc in
              subst (λ x. Has (set target i true) x) same (set-Has target i inside),
          refl,
        ),
      )
  extend_first_from_sequence_lem target (non_terminal id ∷ sequence) shape size range known l =
      let (row, at) = get_elem?-inside rows id (omega (arith, shape.0, range.0)) in
      let (bit, known_bit) = get_elem?-inside is_nullable id (omega (arith, size, range.0)) in
      let (bits, e, size_bits, from, left, right) =
        union_bits_lem target row (omega (arith, shape.1 id row at, l)) in
      let (w, b, later, ext) =
        extend_first_from_sequence_lem bits sequence shape size range.1 known (size_bits ∙ l) in
      extend_cons target id sequence row bits bit at known_bit e size_bits from left right w b later
        ext
