-- ===== src/Seq/Node.antt =====
-- `Node` of src/utils/persistent_seq.rs: the balanced rope, its cached fields and its indexing.
-- `Arc` sharing leaves no trace: a node is immutable.
use plingo.Prelude.{
  ℕ, ◌+◌, ◌-◌, ◌≤◌, ◌<◌, min, max, ◌≡◌, refl, ◌∙◌, sym, ap, Option, none, some, List, [], ◌++◌,
  length, get_elem?, ltb, if◌then◌else◌, arith, length-append, get_elem?-append_left,
  get_elem?-append_right, Bool-cases, inl, inr, tests,
}
use plingo.Seq.Measure.{SeqMeasure, IsLawful}

pub data Node {ℓ κ} (T : Type ℓ) (M : Type κ) : Type (ℓ ⊔ κ) where
  leaf : List T → M → Node T M
  branch : Node T M → Node T M → ℕ → ℕ → M → Node T M

-- `LEAF_CAP`
abbrev pub leaf_cap : ℕ
leaf_cap = 32

-- `u8::saturating_add(1)`
abbrev pub saturating_suc : ℕ → ℕ
saturating_suc h = min 255 (h + 1)

module _ {ℓ κ} {T : Type ℓ} {M : Type κ} where
  abbrev pub len : Node T M → ℕ
  len (leaf values m) = length values
  len (branch l r n h m) = n

  abbrev pub height : Node T M → ℕ
  height (leaf values m) = 0
  height (branch l r n h m) = h

  abbrev pub measure : Node T M → M
  measure (leaf values m) = m
  measure (branch l r n h m) = m

  unfoldable pub get : Node T M → ℕ → Option T
  get (leaf values m) index = get_elem? values index
  get (branch l r n h m) index = if ltb index (len l) then get l index else get r (index - len l)

  -- The values that a node stands for, in order.
  abbrev pub to_list : Node T M → List T
  to_list (leaf values m) = values
  to_list (branch l r n h m) = to_list l ++ to_list r

  abbrev pub to_list_option : Option (Node T M) → List T
  to_list_option none = []
  to_list_option (some t) = to_list t

module _ {ℓ κ} {T : Type ℓ} {M : Type κ} ⦃s : SeqMeasure T M⦄ where
  -- `Node::leaf` and `Node::branch`, which fill in the cached fields.
  abbrev pub new_leaf : List T → Node T M
  new_leaf values = leaf values (s.measure_leaf values)

  abbrev pub new_branch : Node T M → Node T M → Node T M
  new_branch l r =
      branch l r (len l + len r) (saturating_suc (max (height l) (height r)))
        (s.combine (measure l) (measure r))

  -- Leaves hold 1 to 32 values, and every cached field is what the constructors compute.
  abbrev pub IsValid : Node T M → Type κ
  IsValid (leaf values m) =
      (0 < length values) × (length values ≤ leaf_cap) × (m ≡ s.measure_leaf values)
  IsValid (branch l r n h m) =
      IsValid l
      × IsValid r
      × (n ≡ len l + len r)
      × (h ≡ saturating_suc (max (height l) (height r)))
      × (m ≡ s.combine (measure l) (measure r))

  -- A root: the empty sequence has none.
  abbrev pub IsValidOption : Option (Node T M) → Type κ
  IsValidOption none = Unit
  IsValidOption (some t) = IsValid t

  pub len-to_list : (t : Node T M) → IsValid t → len t ≡ length (to_list t)
  len-to_list (leaf values m) v = refl
  len-to_list (branch l r n h m) v =
      omega
        (arith, v.2, len-to_list l v.0, len-to_list r v.1, length-append (to_list l) (to_list r))

  pub measure-to_list :
      IsLawful s → (t : Node T M) → IsValid t → measure t ≡ s.measure_leaf (to_list t)
  measure-to_list w (leaf values m) v = v.2
  measure-to_list w (branch l r n h m) v =
      rw (v.4, measure-to_list w l v.0, measure-to_list w r v.1)
        (sym (w.measure-append (to_list l) (to_list r)))

  pub len_pos : (t : Node T M) → IsValid t → 0 < len t
  len_pos (leaf values m) v = v.0
  len_pos (branch l r n h m) v = omega (arith, v.2, len_pos l v.0)

  pub get_lem : (t : Node T M) (i : ℕ) → IsValid t → get t i ≡ get_elem? (to_list t) i
  unfolding get
  get_lem (leaf values m) i v = refl
  get_lem (branch l r n h m) i v = elim (Bool-cases (ltb i (len l))) [
    | inl p ↦ rw p (
        get_lem l i v.0
        ∙ sym (get_elem?-append_left (to_list l) (to_list r) i (omega (tests, len-to_list l v.0))))
    | inr p ↦ rw p (
        get_lem r (i - len l) v.1
        ∙ ap (λ k. get_elem? (to_list r) (i - k)) (len-to_list l v.0)
        ∙ sym (get_elem?-append_right (to_list l) (to_list r) i (omega (tests, len-to_list l v.0))))
  ]
