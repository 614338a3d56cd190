-- ===== src/Source/Mapping.antt =====
-- `SourceCoordinateMap::build` and `map_old_to_new` of src/framework/source.rs against the meaning of
-- the splices as an edit of bytes.
use plingo.Prelude.{
  ℕ, zero, suc, ◌+◌, ◌-◌, ◌≤◌, ◌<◌, Bool, true, false, ltb, if◌then◌else◌, ◌≡◌, refl, sym, ap,
  subst, ◌∙◌, append-nil, take-length, none, some, ◌>>=◌, List, [], ◌∷◌, ◌++◌, map, length,
  get_elem?, take, drop, arith, tests, append_assoc, length-append, length-take, length-drop,
  get_elem?-append_left, get_elem?-append_right, Bool-cases, Option-cases, inl, inr, lt→ltb, le→leb,
  gt→leb,
}
use plingo.Source.Coordinates.{
  ByteRange, contains, SourceSplice, UnchangedIsland, island, islands_from, build, partition_point,
  map_old_to_new,
}
use plingo.Source.Text.{
  Edit, spliced, splices_of, IsNormalized, IsUnchanged, IsNormalized-le, get_elem?-take,
  get_elem?-drop,
}

-- Every island of a list satisfies `P`.
abbrev All {ℓ} : (UnchangedIsland → Type ℓ) → List UnchangedIsland → Type ℓ
All P [] = Unit
All P (i ∷ islands) = P i × All P islands

All-get_elem? {ℓ} :
    (P : UnchangedIsland → Type ℓ) (islands : List UnchangedIsland) (k : ℕ) {i : UnchangedIsland}
    → All P islands
    → get_elem? islands k ≡ some i
    → P i
All-get_elem? P [] k a e = cc
All-get_elem? P (j ∷ islands) zero {i} a e = let same : j ≡ i = cc in subst P same a.0
All-get_elem? P (j ∷ islands) (suc k) a e = All-get_elem? P islands k a.1 e

-- The bytes of the island stand in both texts, at the same distance from its start.
abbrev Copies : List ℕ → List ℕ → UnchangedIsland → Type 0
Copies old new i =
    (x : ℕ)
    → i.old.start + x < i.old.end
    → get_elem? old (i.old.start + x) ≡ get_elem? new (i.new.start + x)

copied_part :
    (old pre rest : List ℕ) (oc nc size : ℕ)
    → length pre ≡ nc
    → oc + size ≤ length old
    → Copies old (pre ++ (take size (drop oc old) ++ rest)) (island oc nc size)
copied_part old pre rest oc nc size e h x lt =
    let part : List ℕ = take size (drop oc old) in
    let within : x < length part =
      omega (arith, length-take size (drop oc old), length-drop oc old) in
    sym (
      get_elem?-append_right pre (part ++ rest) (nc + x) (omega arith)
      ∙ ap (get_elem? (part ++ rest)) (omega arith)
      ∙ get_elem?-append_left part rest x within
      ∙ get_elem?-take (drop oc old) size x (omega arith)
      ∙ get_elem?-drop old oc x)

rest_whole : (xs : List ℕ) (n : ℕ) → take (length xs - n) (drop n xs) ++ [] ≡ drop n xs
rest_whole xs n =
    append-nil (take (length xs - n) (drop n xs))
    ∙ ap (λ k. take k (drop n xs)) (sym (length-drop n xs))
    ∙ take-length (drop n xs)

regroup {ℓ} : {A : Type ℓ} (a b c d : List A) → (a ++ (b ++ c)) ++ d ≡ a ++ (b ++ (c ++ d))
regroup a b c d = append_assoc a (b ++ c) d ∙ ap (a ++◌) (append_assoc b c d)

islands_from-Copies :
    (old pre : List ℕ) (oc nc : ℕ) (edits : List Edit)
    → length pre ≡ nc
    → IsNormalized (length old) oc nc edits
    → All
        (Copies old (pre ++ spliced old oc edits))
        (islands_from (length old) oc nc (splices_of edits))
unfolding islands_from
islands_from-Copies old pre oc nc [] e n = elim (Bool-cases (ltb oc (length old))) [
  | inl p ↦ rw p (
    subst (λ t. Copies old (pre ++ t) (island oc nc (length old - oc))) (rest_whole old oc)
        (copied_part old pre [] oc nc (length old - oc) e (omega arith)),
    tt,
  )
  | inr p ↦ rw p tt
]
islands_from-Copies old pre oc nc ((s, bytes) ∷ edits) e n =
    let size : ℕ = s.old_range.start - oc in
    let part : List ℕ = take size (drop oc old) in
    let later : List ℕ = spliced old s.old_range.end edits in
    let fits : s.old_range.end ≤ length old =
      IsNormalized-le (length old) s.old_range.end s.new_range.end edits n.4 in
    let reached : length (pre ++ (part ++ bytes)) ≡ s.new_range.end = omega (
      arith,
      n.2,
      n.3,
      n.0,
      n.1,
      length-append pre (part ++ bytes),
      length-append part bytes,
      length-take size (drop oc old),
      length-drop oc old,
    ) in
    let rest =
      subst
        (λ t.
          All (Copies old t)
            (islands_from (length old) s.old_range.end s.new_range.end (splices_of edits)))
        (regroup pre part bytes later)
        (islands_from-Copies old (pre ++ (part ++ bytes)) s.old_range.end s.new_range.end edits
          reached n.4) in
    elim (Bool-cases (ltb oc s.old_range.start)) [
      | inl p ↦
          rw p (copied_part old pre (bytes ++ later) oc nc size e (omega (arith, n.0, n.1)), rest)
      | inr p ↦ rw p rest
    ]

-- What the old range of an island says of a position in it.
abbrev Keeps : ℕ → ℕ → List Edit → UnchangedIsland → Type 0
Keeps old_len oc edits i =
    (oc ≤ i.old.start)
    × ((at : ℕ) → i.old.start ≤ at → at < i.old.end → (at < old_len) × IsUnchanged edits at)

All-imp {ℓ κ} :
    {P : UnchangedIsland → Type ℓ} {Q : UnchangedIsland → Type κ}
    → ((i : UnchangedIsland) → P i → Q i)
    → (islands : List UnchangedIsland) → All P islands
    → All Q islands
All-imp f [] a = tt
All-imp f (i ∷ islands) a = (f i a.0, All-imp f islands a.1)

-- A position in front of the old cursor is touched by no later splice.
IsUnchanged-before :
    (old_len oc nc : ℕ) (edits : List Edit) (at : ℕ)
    → IsNormalized old_len oc nc edits
    → at < oc
    → IsUnchanged edits at
IsUnchanged-before old_len oc nc [] at n h = tt
IsUnchanged-before old_len oc nc ((s, bytes) ∷ edits) at n h = (
  λ k. absurd (omega (arith, n.0)),
  IsUnchanged-before old_len s.old_range.end s.new_range.end edits at n.4 (omega (arith, n.0, n.1)),
)

Keeps-cons :
    (old_len oc : ℕ) (s : SourceSplice) (bytes : List ℕ) (edits : List Edit) (i : UnchangedIsland)
    → oc ≤ s.old_range.start
    → s.old_range.start ≤ s.old_range.end
    → Keeps old_len s.old_range.end edits i
    → Keeps old_len oc ((s, bytes) ∷ edits) i
Keeps-cons old_len oc s bytes edits i h k keeps = (
  omega (arith, keeps.0),
  λ at lo hi. let kept = keeps.1 at lo hi in (kept.0, ((λ _. omega (arith, keeps.0)), kept.1)),
)

islands_from-Keeps :
    (old_len oc nc : ℕ) (edits : List Edit)
    → IsNormalized old_len oc nc edits
    → All (Keeps old_len oc edits) (islands_from old_len oc nc (splices_of edits))
unfolding islands_from
islands_from-Keeps old_len oc nc [] n = elim (Bool-cases (ltb oc old_len)) [
  | inl p ↦ rw p ((omega arith, λ at lo hi. (omega arith, tt)), tt)
  | inr p ↦ rw p tt
]
islands_from-Keeps old_len oc nc ((s, bytes) ∷ edits) n =
    let fits = IsNormalized-le old_len s.old_range.end s.new_range.end edits n.4 in
    let rest =
      All-imp (λ i keeps. Keeps-cons old_len oc s bytes edits i n.0 n.1 keeps)
        (islands_from old_len s.old_range.end s.new_range.end (splices_of edits))
        (islands_from-Keeps old_len s.old_range.end s.new_range.end edits n.4) in
    elim (Bool-cases (ltb oc s.old_range.start)) [
      | inl p ↦ rw p (
        (
          omega arith,
          λ at lo hi. (
            omega (arith, n.0, n.1, fits),
            (
              λ h. absurd (omega (arith, n.0)),
              IsUnchanged-before old_len s.old_range.end s.new_range.end edits at n.4
                  (omega (arith, n.0, n.1)),
            ),
          ),
        ),
        rest,
      )
      | inr p ↦ rw p rest
    ]

abbrev starts : List UnchangedIsland → List ℕ
starts = map (λ i. i.old.start)

-- No island starts at or before a position in front of the cursor.
no_earlier :
    (old_len oc nc : ℕ) (edits : List Edit) (at : ℕ)
    → IsNormalized old_len oc nc edits
    → at < oc
    → partition_point (starts (islands_from old_len oc nc (splices_of edits))) at ≡ 0
unfolding partition_point
no_earlier old_len oc nc edits at n h =
    head_later (islands_from old_len oc nc (splices_of edits))
      (islands_from-Keeps old_len oc nc edits n)
  where
    head_later :
        (islands : List UnchangedIsland)
        → All (Keeps old_len oc edits) islands
        → partition_point (starts islands) at ≡ 0
    head_later [] a = refl
    head_later (i ∷ islands) a = rw (gt→leb i.old.start at (omega (arith, a.0.0)))

-- Where the binary search ends, and the island that it finds there.
abbrev Found : List UnchangedIsland → ℕ → Type 0
Found islands at =
    (k : ℕ) × (i : UnchangedIsland) × (partition_point (starts islands) at ≡ suc k)
    × (get_elem? islands k ≡ some i)
    × (i.old.start ≤ at)
    × (at < i.old.end)

Found-cons :
    (i : UnchangedIsland) (islands : List UnchangedIsland) (at : ℕ)
    → i.old.start ≤ at
    → Found islands at
    → Found (i ∷ islands) at
unfolding partition_point
Found-cons i islands at h (k, j, p, e, lo, hi) =
    (suc k, j, rw (le→leb i.old.start at h, p), e, lo, hi)

unchanged-Found :
    (old_len oc nc : ℕ) (edits : List Edit) (at : ℕ)
    → IsNormalized old_len oc nc edits
    → oc ≤ at
    → at < old_len
    → IsUnchanged edits at
    → Found (islands_from old_len oc nc (splices_of edits)) at
unfolding islands_from
unchanged-Found old_len oc nc [] at n lo hi u = rw (lt→ltb oc old_len (omega arith)) (
  0,
  island oc nc (old_len - oc),
  (unfold partition_point in rw (le→leb oc at lo)),
  refl,
  lo,
  omega arith,
)
unchanged-Found old_len oc nc ((s, bytes) ∷ edits) at n lo hi u =
    let later = islands_from old_len s.old_range.end s.new_range.end (splices_of edits) in
    let head = island oc nc (s.old_range.start - oc) in
    let go_on : s.old_range.start ≤ at → Found later at =
      λ h. unchanged-Found old_len s.old_range.end s.new_range.end edits at n.4 (u.0 h) hi u.1 in
    elim (Bool-cases (ltb oc s.old_range.start)) [
      | inl p ↦ elim (Bool-cases (ltb at s.old_range.start)) [
        | inl q ↦ rw p (
          0,
          head,
          (unfold partition_point in
              rw (
                le→leb oc at lo,
                no_earlier old_len s.old_range.end s.new_range.end edits at n.4
                    (omega (tests, n.1)),
              )),
          refl,
          lo,
          omega tests,
        )
        | inr q ↦ rw p (Found-cons head later at lo (go_on (omega tests)))
      ]
      | inr p ↦ rw p (go_on (omega tests))
    ]

none-some {ℓ} : {A : Type ℓ} {a : A} → none ≡ some a → ⊥
none-some e = cc

tested {ℓ} :
    {A : Type ℓ} (test : Bool) (a b : A)
    → (if test then some a else none) ≡ some b
    → (test ≡ true) × (b ≡ a)
tested true a b h = (refl, cc)
tested false a b h = absurd (none-some h)

contains_bounds : (r : ByteRange) (at : ℕ) → contains r at ≡ true → (r.start ≤ at) × (at < r.end)
contains_bounds r at h = ground arith

-- What a lookup at an index gives: an island around the position, in which it keeps its offset.
lookup_inside :
    (islands : List UnchangedIsland) (k at : ℕ) (o : ℕ × ℕ)
    → (get_elem? islands k >>= λ i.
        if contains i.old at then some (i.new.start + (at - i.old.start), k) else none)
      ≡ some o
    → (i : UnchangedIsland) × (get_elem? islands k ≡ some i)
      × (i.old.start ≤ at)
      × (at < i.old.end)
      × (o ≡ (i.new.start + (at - i.old.start), k))
lookup_inside islands k at o h = elim (Option-cases (get_elem? islands k)) [
  | inl n ↦ absurd (none-some (rw n at h))
  | inr (i, e) ↦
      let (inside, same) =
        tested (contains i.old at) (i.new.start + (at - i.old.start), k) o (rw e at h) in
      let (lo, hi) = contains_bounds i.old at inside in (i, e, lo, hi, same)
]

module _ (old : List ℕ) (edits : List Edit) (normalized : IsNormalized (length old) 0 0 edits) where
  abbrev islands : List UnchangedIsland
  islands = islands_from (length old) 0 0 (splices_of edits)

  -- A position that maps lies in the old text and in the old range of no splice, and the new text
  -- has there the byte that the old text has at it.
  pub map_old_to_new_same :
      (at to index : ℕ)
      → map_old_to_new (build (length old) (splices_of edits)) at ≡ some (to, index)
      → (at < length old)
        × IsUnchanged edits at
        × (get_elem? old at ≡ get_elem? (spliced old 0 edits) to)
  unfolding map_old_to_new build
  map_old_to_new_same at to index e =
      let k : ℕ = partition_point (starts islands) at - 1 in
      let (i, found, lo, hi, same) = lookup_inside islands k at (to, index) e in
      let copies =
        All-get_elem? (Copies old (spliced old 0 edits)) islands k
          (islands_from-Copies old [] 0 0 edits refl normalized) found in
      let keeps =
        All-get_elem? (Keeps (length old) 0 edits) islands k
          (islands_from-Keeps (length old) 0 0 edits normalized) found in
      let kept = keeps.1 at lo hi in
      let there : i.old.start + (at - i.old.start) ≡ at = omega arith in
      let here : to ≡ i.new.start + (at - i.old.start) = ap (λ (o : ℕ × ℕ). o.0) same in
      (kept.0, kept.1, rw here (rw there at (copies (at - i.old.start) (omega arith))))

  -- Where the splices are normalized, every position of the old text outside their old ranges maps.
  pub map_old_to_new_total :
      (at : ℕ)
      → at < length old
      → IsUnchanged edits at
      → (to : ℕ) × (index : ℕ) × (map_old_to_new (build (length old) (splices_of edits)) at
          ≡ some (to, index))
  unfolding map_old_to_new build
  map_old_to_new_total at h u =
      let (k, i, p, e, lo, hi) =
        unchanged-Found (length old) 0 0 edits at normalized (omega arith) h u in
      let index : suc k - 1 ≡ k = omega arith in
      (
        i.new.start + (at - i.old.start),
        k,
        rw (p, index, e, le→leb i.old.start at lo, lt→ltb at i.old.end hi),
      )
