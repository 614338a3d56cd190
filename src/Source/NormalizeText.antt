-- ===== src/Source/NormalizeText.antt =====
-- `normalize_edits` of src/framework/source.rs: the splices that are left do what the replacements say.
use plingo.Prelude.{
  ℕ, ◌+◌, ◌-◌, ◌≤◌, ◌≡◌, refl, sym, ap, ap₂, ◌∙◌, Option, true, false, ◌==◌, ==_iff, le→leb, some,
  List, [], ◌∷◌, ◌++◌, length, length-take, length-drop, arith, Bool-cases, inl, inr, take, drop,
  append_assoc, take-append-drop, drop-drop,
}
use plingo.Source.Text.{Edit, spliced}
use plingo.Source.Rope.{take_in_two}
use plingo.Source.Normalize.{
  Repl, overlapping, zip_equal, changes_nothing, splice_at, shift_splices, merge_adjacent,
  normalize_replacements,
}
use plingo.Source.NormalizeLaws.{
  AllInside, SlicesInside, changes_nothing_lem, InOrder, InOrder-le, InOrder-weaken, whole_order,
  spliced-merge_from,
}

-- The text with every old range replaced, from a cursor on.
abbrev pub replaced : List ℕ → ℕ → List Repl → List ℕ
replaced old oc [] = drop oc old
replaced old oc (r ∷ replacements) =
    take (r.old_range.start - oc) (drop oc old)
    ++ (r.inserted ++ replaced old r.old_range.end replacements)

drop_on : (old : List ℕ) (oc from : ℕ) → oc ≤ from → drop (from - oc) (drop oc old) ≡ drop from old
drop_on old oc from h = drop-drop (from - oc) oc old ∙ ap (λ n. drop n old) (omega arith)

-- The text up to a later cursor is the old one.
replaced_from :
    (old : List ℕ) (len oc from : ℕ) (replacements : List Repl)
    → oc ≤ from
    → InOrder len from replacements
    → replaced old oc replacements
      ≡ take (from - oc) (drop oc old) ++ replaced old from replacements
replaced_from old len oc from [] h o =
    sym (take-append-drop (from - oc) (drop oc old))
    ∙ ap (take (from - oc) (drop oc old) ++◌) (drop_on old oc from h)
replaced_from old len oc from (r ∷ replacements) h o =
    let rest : List ℕ = r.inserted ++ replaced old r.old_range.end replacements in
    let size : r.old_range.start - oc - (from - oc) ≡ r.old_range.start - from =
      omega (arith, h, o.0) in
    let parts : take (r.old_range.start - oc) (drop oc old)
        ≡ take (from - oc) (drop oc old) ++ take (r.old_range.start - from) (drop from old) =
      take_in_two (drop oc old) (from - oc) (r.old_range.start - oc) (omega (arith, h, o.0))
      ∙ ap (take (from - oc) (drop oc old) ++◌) (ap₂ take size (drop_on old oc from h)) in
    ap (λ t. t ++ rest) parts
    ∙ append_assoc (take (from - oc) (drop oc old))
        (take (r.old_range.start - from) (drop from old)) rest

zip_equal→eq : (a b : List ℕ) → length a ≡ length b → zip_equal a b ≡ true → a ≡ b
zip_equal→eq [] [] l e = refl
zip_equal→eq [] (y ∷ b) l e = absurd (omega arith)
zip_equal→eq (x ∷ a) [] l e = absurd (omega arith)
zip_equal→eq (x ∷ a) (y ∷ b) l e =
    ap₂ ◌∷◌ (ground arith) (zip_equal→eq a b (omega arith) (ground arith))

agreed :
    (slice : ℕ → ℕ → Option (List ℕ)) (r : Repl) (bytes : List ℕ)
    → slice r.old_range.start r.old_range.end ≡ some bytes
    → changes_nothing slice r ≡ some true
    → (length r.inserted ≡ r.old_range.end - r.old_range.start)
      × (zip_equal r.inserted bytes ≡ true)
agreed slice r bytes there e =
    elim (Bool-cases (length r.inserted == (r.old_range.end - r.old_range.start))) [
      | inl same ↦
          let both : some (zip_equal r.inserted bytes) ≡ some true = sym (sliced same) ∙ e in
          ((==_iff (length r.inserted) (r.old_range.end - r.old_range.start)).0 same, cc)
      | inr other ↦ let both : some false ≡ some true = sym (skipped other) ∙ e in cc
    ]
  where
    sliced :
        (length r.inserted == (r.old_range.end - r.old_range.start)) ≡ true
        → changes_nothing slice r ≡ some (zip_equal r.inserted bytes)
    sliced same = rw (same, there) refl

    skipped :
        (length r.inserted == (r.old_range.end - r.old_range.start)) ≡ false
        → changes_nothing slice r ≡ some false
    skipped other = rw other refl

module _ (old : List ℕ) (slice : ℕ → ℕ → Option (List ℕ))
    (slice-bytes : (from to : ℕ)
      → from ≤ to
      → to ≤ length old
      → slice from to ≡ some (take (to - from) (drop from old))) where
  in_bounds : SlicesInside slice (length old)
  in_bounds from to h k = (take (to - from) (drop from old), slice-bytes from to h k)

  same_bytes :
      (r : Repl)
      → r.old_range.start ≤ r.old_range.end
      → r.old_range.end ≤ length old
      → changes_nothing slice r ≡ some true
      → r.inserted ≡ take (r.old_range.end - r.old_range.start) (drop r.old_range.start old)
  same_bytes r h k e =
      let there = slice-bytes r.old_range.start r.old_range.end h k in
      let part : List ℕ = take (r.old_range.end - r.old_range.start) (drop r.old_range.start old) in
      let (counts, agree) = agreed slice r part there e in
      zip_equal→eq r.inserted part
        (omega (
          arith,
          h,
          k,
          counts,
          length-take (r.old_range.end - r.old_range.start) (drop r.old_range.start old),
          length-drop r.old_range.start old,
        ))
        agree

  -- Without a replacement that changes nothing the text is the same.
  replaced_without :
      (oc : ℕ) (r : Repl) (replacements : List Repl)
      → InOrder (length old) oc (r ∷ replacements)
      → changes_nothing slice r ≡ some true
      → replaced old oc replacements ≡ replaced old oc (r ∷ replacements)
  replaced_without oc r replacements o e =
      let start : ℕ = r.old_range.start in
      let end : ℕ = r.old_range.end in
      let fits = InOrder-le (length old) end replacements o.2 in
      let later = InOrder-weaken (length old) start end replacements o.1 o.2 in
      replaced_from old (length old) oc start replacements o.0 later
      ∙ ap (take (start - oc) (drop oc old) ++◌) (
          replaced_from old (length old) start end replacements o.1 o.2
          ∙ ap (λ t. t ++ replaced old end replacements) (sym (same_bytes r o.1 fits e)))

  shifted_text :
      (oc gained lost : ℕ) (replacements : List Repl)
      → InOrder (length old) oc replacements
      → lost ≤ oc + gained
      → (edits : List Edit) × (shift_splices slice replacements gained lost ≡ some edits)
        × (spliced old oc edits ≡ replaced old oc replacements)
  unfolding shift_splices
  shifted_text oc gained lost [] o h = ([], refl, refl)
  shifted_text oc gained lost (r ∷ replacements) o h =
      let start : ℕ = r.old_range.start in
      let end : ℕ = r.old_range.end in
      let guard = le→leb lost (start + gained) (omega (arith, o.0, h)) in
      let fits = InOrder-le (length old) end replacements o.2 in
      elim (changes_nothing_lem slice (length old) r in_bounds o.1 fits) [
        | inl e ↦
            let later =
              InOrder-weaken (length old) oc end replacements (omega (arith, o.0, o.1)) o.2 in
            let (edits, f, same) = shifted_text oc gained lost replacements later h in
            (edits, rw (guard, e) f, same ∙ replaced_without oc r replacements o e)
        | inr e ↦
            let (edits, f, same) =
              shifted_text end (gained + length r.inserted) (lost + (end - start)) replacements o.2
                (omega (arith, o.0, o.1, h)) in
            (
              (splice_at r (start + gained - lost), r.inserted) ∷ edits,
              rw (guard, e, f) refl,
              ap (λ t. take (start - oc) (drop oc old) ++ (r.inserted ++ t)) same,
            )
      ]

  spliced-merge_adjacent :
      (edits : List Edit) → spliced old 0 (merge_adjacent edits) ≡ spliced old 0 edits
  unfolding merge_adjacent
  spliced-merge_adjacent [] = refl
  spliced-merge_adjacent ((s, text) ∷ edits) = spliced-merge_from old 0 s text edits

  -- Where the slices are the bytes of the old text, replacements that lie inside it and do not overlap
  -- are accepted, and the splices that are left make of it the text with every old range replaced:
  -- dropping and merging lose nothing.
  pub normalize_replacements_text :
      (replacements : List Repl)
      → AllInside (length old) replacements
      → overlapping replacements ≡ false
      → (edits : List Edit) × (normalize_replacements slice replacements ≡ some edits)
        × (spliced old 0 edits ≡ replaced old 0 replacements)
  unfolding normalize_replacements
  normalize_replacements_text replacements a e =
      let (edits, f, same) =
        shifted_text 0 0 0 replacements (whole_order (length old) replacements a e) (omega arith) in
      (merge_adjacent edits, rw (e, f) refl, spliced-merge_adjacent edits ∙ same)
