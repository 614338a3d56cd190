-- ===== src/Source/Rope.antt =====
-- `apply_splices` of src/framework/source.rs over the ropes of the crate `ropey`, which are a
-- parameter: the calls that the source makes, and what their documentation says of them.
use plingo.Prelude.{
  ℕ, zero, suc, ◌-◌, ◌≤◌, ◌≡◌, refl, sym, ap, ap₂, subst, take_front, drop_front, ◌∙◌, List, [],
  ◌∷◌, ◌++◌, length, take, drop, take-nil, arith, append_assoc, length-append, length-take,
  take-append_left, take-append-drop,
}
use mathlib.Core.List.{reverse, reverse-cons}
use plingo.Source.Coordinates.{SourceSplice}
use plingo.Source.Text.{Edit, spliced, splices_of, IsNormalized, IsNormalized-le}

pub record RopeApi : Type 1 where
  pub Rope : Type 0
  pub bytes : Rope → List ℕ
  pub byte_to_char : Rope → ℕ → ℕ
  -- Both take character indices.
  pub remove : Rope → ℕ → ℕ → Rope
  pub insert : Rope → ℕ → List ℕ → Rope
  pub IsBoundary : Rope → ℕ → Type 0
  pub bytes-remove :
      (r : Rope) (s e : ℕ)
      → s ≤ e
      → e ≤ length (bytes r)
      → IsBoundary r s
      → IsBoundary r e
      → bytes (remove r (byte_to_char r s) (byte_to_char r e))
        ≡ take s (bytes r) ++ drop e (bytes r)
  pub bytes-insert :
      (r : Rope) (at : ℕ) (text : List ℕ)
      → at ≤ length (bytes r)
      → IsBoundary r at
      → bytes (insert r (byte_to_char r at) text) ≡ take at (bytes r) ++ (text ++ drop at (bytes r))
  -- What stands in front of a change keeps its boundaries and its character indices.
  pub remove_front :
      (r : Rope) (at s e : ℕ)
      → at ≤ s
      → IsBoundary r at
      → IsBoundary (remove r (byte_to_char r s) (byte_to_char r e)) at
        × (byte_to_char (remove r (byte_to_char r s) (byte_to_char r e)) at ≡ byte_to_char r at)
  pub insert_front :
      (r : Rope) (at s : ℕ) (text : List ℕ)
      → at ≤ s
      → IsBoundary r at
      → IsBoundary (insert r (byte_to_char r s) text) at

abbrev pub texts_of : List Edit → List (List ℕ)
texts_of [] = []
texts_of ((s, text) ∷ edits) = text ∷ texts_of edits

-- `zip`, which stops at the end of the shorter side.
pub zip_edits : List SourceSplice → List (List ℕ) → List Edit
zip_edits [] texts = []
zip_edits (s ∷ splices) [] = []
zip_edits (s ∷ splices) (t ∷ texts) = (s, t) ∷ zip_edits splices texts

module _ (api : RopeApi) where
  open api use {Rope, bytes, byte_to_char, remove, insert, IsBoundary}

  -- One turn of the loop. A text that is empty is not inserted.
  pub apply_edit : Rope → Edit → Rope
  apply_edit rope (s, []) =
      remove rope (byte_to_char rope s.old_range.start) (byte_to_char rope s.old_range.end)
  apply_edit rope (s, t ∷ text) =
      insert (remove rope (byte_to_char rope s.old_range.start) (byte_to_char rope s.old_range.end))
        (byte_to_char rope s.old_range.start) (t ∷ text)

  pub apply_each : Rope → List Edit → Rope
  apply_each rope [] = rope
  apply_each rope (e ∷ edits) = apply_each (apply_edit rope e) edits

  unfoldable pub apply_splices : Rope → List SourceSplice → List (List ℕ) → Rope
  apply_splices base splices inserted =
      apply_each base (zip_edits (reverse splices) (reverse inserted))

zip_edits-append :
    (a : List SourceSplice) (x : List (List ℕ)) (s : SourceSplice) (t : List ℕ)
    → length a ≡ length x
    → zip_edits (a ++ (s ∷ [])) (x ++ (t ∷ [])) ≡ zip_edits a x ++ ((s, t) ∷ [])
unfolding zip_edits
zip_edits-append [] [] s t h = refl
zip_edits-append [] (y ∷ x) s t h = absurd (omega arith)
zip_edits-append (b ∷ a) [] s t h = absurd (omega arith)
zip_edits-append (b ∷ a) (y ∷ x) s t h = ap ((b, y) ∷◌) (zip_edits-append a x s t (omega arith))

length-reverse {ℓ} : {A : Type ℓ} (xs : List A) → length (reverse xs) ≡ length xs
length-reverse [] = refl
length-reverse (x ∷ xs) =
    rw reverse-cons (omega (arith, length-append (reverse xs) (x ∷ []), length-reverse xs))

same_lengths : (edits : List Edit) → length (splices_of edits) ≡ length (texts_of edits)
same_lengths [] = refl
same_lengths ((s, t) ∷ edits) = ap suc (same_lengths edits)

-- The two reversed lists zip to the reversed edits.
zip_edits-reverse :
    (edits : List Edit)
    → zip_edits (reverse (splices_of edits)) (reverse (texts_of edits)) ≡ reverse edits
zip_edits-reverse [] = unfold zip_edits in refl
zip_edits-reverse ((s, t) ∷ edits) =
    rw
      (
        reverse-cons s (splices_of edits),
        reverse-cons t (texts_of edits),
        reverse-cons (s, t) edits,
      )
      (zip_edits-append (reverse (splices_of edits)) (reverse (texts_of edits)) s t (
          length-reverse (splices_of edits)
          ∙ same_lengths edits
          ∙ sym (length-reverse (texts_of edits)))
        ∙ ap (λ es. es ++ ((s, t) ∷ [])) (zip_edits-reverse edits))

pub take_in_two :
    (xs : List ℕ) (a b : ℕ) → a ≤ b → take b xs ≡ take a xs ++ take (b - a) (drop a xs)
take_in_two xs zero b h = ap (λ n. take n xs) (omega arith)
take_in_two xs (suc a) zero h = absurd (omega arith)
take_in_two [] (suc a) (suc b) h = sym (take-nil (suc b - suc a))
take_in_two (x ∷ xs) (suc a) (suc b) h =
    let e : b - a ≡ suc b - suc a = omega arith in
    ap (x ∷◌) (take_in_two xs a b (omega arith) ∙ ap (λ n. take a xs ++ take n (drop a xs)) e)

take_shorter : (xs : List ℕ) (a b : ℕ) → a ≤ b → take a (take b xs) ≡ take a xs
take_shorter xs zero b h = refl
take_shorter xs (suc a) zero h = absurd (omega arith)
take_shorter [] (suc a) (suc b) h = refl
take_shorter (x ∷ xs) (suc a) (suc b) h = ap (x ∷◌) (take_shorter xs a b (omega arith))

module _ (api : RopeApi) where
  open api use {
    Rope, bytes, byte_to_char, remove, insert, IsBoundary, bytes-remove, bytes-insert, remove_front,
    insert_front,
  }

  -- Both ends of every old range are boundaries of the text.
  abbrev pub AtBoundaries : Rope → List Edit → Type 0
  AtBoundaries r [] = Unit
  AtBoundaries r ((s, t) ∷ edits) =
      IsBoundary r s.old_range.start × IsBoundary r s.old_range.end × AtBoundaries r edits

  apply_each-append :
      (r : Rope) (xs : List Edit) (e : Edit)
      → apply_each api r (xs ++ (e ∷ [])) ≡ apply_edit api (apply_each api r xs) e
  unfolding apply_each
  apply_each-append r [] e = refl
  apply_each-append r (x ∷ xs) e = apply_each-append (apply_edit api r x) xs e

  bytes-apply_edit :
      (r : Rope) (s : SourceSplice) (t : List ℕ)
      → s.old_range.start ≤ s.old_range.end
      → s.old_range.end ≤ length (bytes r)
      → IsBoundary r s.old_range.start
      → IsBoundary r s.old_range.end
      → bytes (apply_edit api r (s, t))
        ≡ take s.old_range.start (bytes r) ++ (t ++ drop s.old_range.end (bytes r))
  unfolding apply_edit
  bytes-apply_edit r s [] h k a b = bytes-remove r s.old_range.start s.old_range.end h k a b
  bytes-apply_edit r s (c ∷ t) h k a b =
      let from : ℕ = s.old_range.start in
      let to : ℕ = s.old_range.end in
      let cut : Rope = remove r (byte_to_char r from) (byte_to_char r to) in
      let left : List ℕ = take from (bytes r) in
      let right : List ℕ = drop to (bytes r) in
      let size : from ≡ length left = omega (arith, length-take from (bytes r)) in
      let removed : bytes cut ≡ left ++ right = bytes-remove r from to h k a b in
      let (kept, same) = remove_front r from from to (omega arith) a in
      let room : from ≤ length (bytes cut) = rw removed (omega (arith, length-append left right)) in
      subst (λ p. bytes (insert cut p (c ∷ t)) ≡ left ++ ((c ∷ t) ++ right)) same
        (bytes-insert cut from (c ∷ t) room kept
          ∙ ap (λ (bs : List ℕ). take from bs ++ ((c ∷ t) ++ drop from bs)) removed
          ∙ ap₂ (λ (x y : List ℕ). x ++ ((c ∷ t) ++ y)) (take_front left right from size)
              (drop_front left right from size))

  edit_front :
      (r : Rope) (s : SourceSplice) (t : List ℕ) (at : ℕ)
      → at ≤ s.old_range.start
      → IsBoundary r at
      → IsBoundary r s.old_range.start
      → IsBoundary (apply_edit api r (s, t)) at
  unfolding apply_edit
  edit_front r s [] at h b c = (remove_front r at s.old_range.start s.old_range.end h b).0
  edit_front r s (x ∷ t) at h b c =
      let from : ℕ = s.old_range.start in
      let to : ℕ = s.old_range.end in
      let cut : Rope = remove r (byte_to_char r from) (byte_to_char r to) in
      let (kept, same) = remove_front r from from to (omega arith) c in
      subst (λ p. IsBoundary (insert cut p (x ∷ t)) at) same
        (insert_front cut at from (x ∷ t) h (remove_front r at from to h b).0)

  -- The later edits of a list that is applied from its end leave the front of the text alone.
  later_front :
      (r : Rope) (oc nc at : ℕ) (edits : List Edit)
      → IsNormalized (length (bytes r)) oc nc edits
      → AtBoundaries r edits
      → at ≤ oc
      → IsBoundary r at
      → IsBoundary (apply_each api r (reverse edits)) at
  later_front r oc nc at [] n a h b = unfold apply_each in b
  later_front r oc nc at ((s, t) ∷ edits) n a h b =
      rw (reverse-cons (s, t) edits, apply_each-append)
        (edit_front (apply_each api r (reverse edits)) s t at (omega (arith, n.0))
          (later_front r s.old_range.end s.new_range.end at edits n.4 a.2 (omega (arith, n.0, n.1))
            b)
          (later_front r s.old_range.end s.new_range.end s.old_range.start edits n.4 a.2 n.1 a.0))

  bytes-apply_each :
      (r : Rope) (oc nc : ℕ) (edits : List Edit)
      → IsNormalized (length (bytes r)) oc nc edits
      → AtBoundaries r edits
      → bytes (apply_each api r (reverse edits)) ≡ take oc (bytes r) ++ spliced (bytes r) oc edits
  bytes-apply_each r oc nc [] n a = unfold apply_each in sym (take-append-drop oc (bytes r))
  bytes-apply_each r oc nc ((s, t) ∷ edits) n a =
      let from : ℕ = s.old_range.start in
      let to : ℕ = s.old_range.end in
      let old : List ℕ = bytes r in
      let fits : to ≤ length old = IsNormalized-le (length old) to s.new_range.end edits n.4 in
      let after : Rope = apply_each api r (reverse edits) in
      let rest : List ℕ = spliced old to edits in
      let front : List ℕ = take to old in
      let size : to ≡ length front = omega (arith, length-take to old) in
      let known : bytes after ≡ front ++ rest =
        bytes-apply_each r to s.new_range.end edits n.4 a.2 in
      let room : to ≤ length (bytes after) = rw known (omega (arith, length-append front rest)) in
      let kept = later_front r to s.new_range.end in
      rw (reverse-cons (s, t) edits, apply_each-append)
        (bytes-apply_edit after s t n.1 room (kept from edits n.4 a.2 n.1 a.0)
            (kept to edits n.4 a.2 (omega arith) a.1)
          ∙ ap (λ (bs : List ℕ). take from bs ++ (t ++ drop to bs)) known
          ∙ ap₂ (λ (x y : List ℕ). x ++ (t ++ y))
              (take-append_left front rest from (omega (arith, n.1)) ∙ take_shorter old from to n.1)
              (drop_front front rest to size)
          ∙ ap (λ x. x ++ (t ++ rest)) (take_in_two old oc from n.0)
          ∙ append_assoc (take oc old) (take (from - oc) (drop oc old)) (t ++ rest))

  -- Applying normalized splices whose ends are boundaries of the text, from the last to the first,
  -- gives the text that they describe from the first to the last.
  pub bytes-apply_splices :
      (base : Rope) (edits : List Edit)
      → IsNormalized (length (bytes base)) 0 0 edits
      → AtBoundaries base edits
      → bytes (apply_splices api base (splices_of edits) (texts_of edits))
        ≡ spliced (bytes base) 0 edits
  unfolding apply_splices
  bytes-apply_splices base edits n a =
      rw (zip_edits-reverse edits) (bytes-apply_each base 0 0 edits n a)
