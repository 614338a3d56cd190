-- ===== src/Seq/Edits.antt =====
-- What the edits of a `PersistentSeq` (src/utils/persistent_seq.rs) do to its list of values.
use plingo.Prelude.{
  ℕ, ◌-◌, ◌≤◌, ◌<◌, ◌≡◌, refl, ◌∙◌, sym, ap, Option, none, some, List, [], ◌∷◌, ◌++◌, length, set,
  take, drop, ◌==◌, arith, length-drop, Bool-cases, inl, inr, false, le→leb, gt→leb, lt→ltb, ==_iff,
  take-nil, drop-nil, take-length, drop-length, drop-drop,
}
use plingo.Seq.Measure.{SeqMeasure}
use plingo.Seq.Node.{Node, len, to_list, len-to_list}
use plingo.Seq.Join.{
  append_node-IsValid, to_list-append_node, join_options-IsValid, to_list-join_options,
}
use plingo.Seq.Split.{split_node, split_node_lem, split_node-IsValid}
use plingo.Seq.Build.{build_leaves_lem}
use plingo.Seq.Access.{replace_node, replace_node-IsValid, to_list-replace_node}
use plingo.Seq.Sequence.{
  PersistentSeq, rooted, new, seq_len, contents, IsValidSeq, from_iter, push, concat, split_at,
  replace, splice,
}

inside : (i n : ℕ) → i ≤ n → (i == 0) ≡ false → (i == n) ≡ false → (0 < i) × (i < n)
inside i n h z f = ground arith

module _ {ℓ κ} {T : Type ℓ} {M : Type κ} ⦃s : SeqMeasure T M⦄ where
  pub seq_len_lem : (q : PersistentSeq T M) → IsValidSeq q → seq_len q ≡ length (contents q)
  seq_len_lem q = on_root q.root
    where
      on_root :
          (t : Option (Node T M))
          → IsValidSeq (rooted t)
          → seq_len (rooted t) ≡ length (contents (rooted t))
      on_root none v = refl
      on_root (some t) v = len-to_list t v

module _ {ℓ κ} {T : Type ℓ} (M : Type κ) ⦃s : SeqMeasure T M⦄ where
  -- A sequence built from values is valid and holds exactly those values, in order.
  pub from_iter_lem :
      (values : List T)
      → IsValidSeq {M = M} (from_iter values) × (contents {M = M} (from_iter values) ≡ values)
  unfolding from_iter
  from_iter_lem [] = (tt, refl)
  from_iter_lem (x ∷ xs) = let (t, e, v, c) = build_leaves_lem {M = M} x xs in rw e (v, c)

module _ {ℓ κ} {T : Type ℓ} {M : Type κ} ⦃s : SeqMeasure T M⦄ where
  -- Pushing keeps a sequence valid and appends the value.
  pub push_lem :
      (q : PersistentSeq T M) (x : T)
      → IsValidSeq q
      → IsValidSeq (push q x) × (contents (push q x) ≡ contents q ++ (x ∷ []))
  unfolding push
  push_lem q x = on_root q.root
    where
      on_root :
          (t : Option (Node T M))
          → IsValidSeq (rooted t)
          → IsValidSeq (push (rooted t) x)
            × (contents (push (rooted t) x) ≡ contents (rooted t) ++ (x ∷ []))
      on_root none v = ((omega arith, omega arith, refl), refl)
      on_root (some t) v = (append_node-IsValid t x v, to_list-append_node t x)

  -- Concatenation keeps sequences valid and concatenates their values.
  pub concat_lem :
      (a b : PersistentSeq T M)
      → IsValidSeq a
      → IsValidSeq b
      → IsValidSeq (concat a b) × (contents (concat a b) ≡ contents a ++ contents b)
  unfolding concat
  concat_lem a b v w = (join_options-IsValid a.root b.root v w, to_list-join_options a.root b.root)

  -- What a split at `i` has to return.
  pub record Splits (q : PersistentSeq T M) (i : ℕ) (a b : PersistentSeq T M) : Type (ℓ ⊔ κ) where
    pub left_valid : IsValidSeq a
    pub right_valid : IsValidSeq b
    pub left_values : contents a ≡ take i (contents q)
    pub right_values : contents b ≡ drop i (contents q)

  split_at_start :
      (t : Option (Node T M)) (i : ℕ)
      → i ≤ seq_len (rooted t)
      → IsValidSeq (rooted t)
      → (a : PersistentSeq T M) × (b : PersistentSeq T M) × (split_at (rooted t) i ≡ some (a, b))
        × Splits (rooted t) i a b
  unfolding split_at
  split_at_start none i h v = (
    new,
    new,
    rw (le→leb _ _ h),
    record {
      left_valid = tt;
      right_valid = tt;
      left_values = sym (take-nil i);
      right_values = sym (drop-nil i);
    },
  )
  split_at_start (some t) i h v = elim (Bool-cases (i == 0)) [
    | inl z ↦
        let e : i ≡ 0 = (==_iff _ _).0 z in
        (
          new,
          rooted (some t),
          rw (le→leb _ _ h, z),
          record { left_valid = tt; right_valid = v; left_values = rw e; right_values = rw e },
        )
    | inr z ↦ elim (Bool-cases (i == len t)) [
      | inl f ↦
          let e : i ≡ length (to_list t) = (==_iff _ _).0 f ∙ len-to_list t v in
          (
            rooted (some t),
            new,
            rw (le→leb _ _ h, z, f),
            record {
              left_valid = v;
              right_valid = tt;
              left_values = rw (e, take-length);
              right_values = rw (e, drop-length);
            },
          )
      | inr f ↦
          let (lo, hi) = inside i (len t) h z f in
          let (lv, rv) = split_node-IsValid t i v lo hi in
          let (le, re) = split_node_lem t i v lo hi in
          (
            rooted (split_node t i).0,
            rooted (split_node t i).1,
            rw (le→leb _ _ h, z, f),
            record { left_valid = lv; right_valid = rv; left_values = le; right_values = re },
          )
    ]
  ]

  -- Up to the length a split returns two valid sequences, which hold the first `i` values and the
  -- rest.
  pub split_at_lem :
      (q : PersistentSeq T M) (i : ℕ)
      → i ≤ length (contents q)
      → IsValidSeq q
      → (a : PersistentSeq T M) × (b : PersistentSeq T M) × (split_at q i ≡ some (a, b))
        × Splits q i a b
  split_at_lem q i h v = split_at_start q.root i (rw (seq_len_lem q v) h) v

  -- Past the length a split panics.
  pub split_at_past :
      (q : PersistentSeq T M) (i : ℕ) → length (contents q) < i → IsValidSeq q → split_at q i ≡ none
  unfolding split_at
  split_at_past q i h v = rw (gt→leb i (seq_len q) (rw (seq_len_lem q v) h))

  replace_root :
      (t : Option (Node T M)) (i : ℕ) (x : T)
      → i < seq_len (rooted t)
      → IsValidSeq (rooted t)
      → (r : PersistentSeq T M) × (replace (rooted t) i x ≡ some r)
        × IsValidSeq r
        × (contents r ≡ set (contents (rooted t)) i x)
  unfolding replace
  replace_root none i x h v = elim h [ ]
  replace_root (some t) i x h v = (
    rooted (some (replace_node t i x)),
    rw (lt→ltb _ _ h),
    replace_node-IsValid t i x v,
    to_list-replace_node t i x v,
  )

  -- Inside the bounds `replace` returns a valid sequence in which one value is written.
  pub replace_lem :
      (q : PersistentSeq T M) (i : ℕ) (x : T)
      → i < length (contents q)
      → IsValidSeq q
      → (r : PersistentSeq T M) × (replace q i x ≡ some r)
        × IsValidSeq r
        × (contents r ≡ set (contents q) i x)
  replace_lem q i x h v = replace_root q.root i x (rw (seq_len_lem q v) h) v

  -- A splice of a range inside the bounds returns a valid sequence, in which the replacement stands
  -- between the values before the range and those behind it.
  pub splice_lem :
      (q : PersistentSeq T M) (start end : ℕ) (replacement : List T)
      → start ≤ end
      → end ≤ length (contents q)
      → IsValidSeq q
      → (r : PersistentSeq T M) × (splice q start end replacement ≡ some r)
        × IsValidSeq r
        × (contents r ≡ take start (contents q) ++ replacement ++ drop end (contents q))
  unfolding splice
  splice_lem q start end replacement h k v =
      let (prefix, tail, e, sp) = split_at_lem q start (omega arith) v in
      let room : end - start ≤ length (contents tail) =
        rw sp.right_values (omega (arith, length-drop start (contents q))) in
      let (dropped, suffix, f, sq) = split_at_lem tail (end - start) room sp.right_valid in
      let (nv, nc) = from_iter_lem M replacement in
      let (cv, cc) = concat_lem prefix (from_iter replacement) sp.left_valid nv in
      let (rv, rc) = concat_lem (concat prefix (from_iter replacement)) suffix cv sq.right_valid in
      (
        concat (concat prefix (from_iter replacement)) suffix,
        rw (le→leb start end h, le→leb end (seq_len q) (rw (seq_len_lem q v) k), e, f),
        rv,
        rw (rc, cc, nc, sp.left_values, sq.right_values, sp.right_values, drop-drop)
            (ap (λ n. (take start (contents q) ++ replacement) ++ drop n (contents q))
              (omega arith)),
      )
