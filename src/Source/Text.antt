-- ===== src/Source/Text.antt =====
-- What a list of splices means for a text, as a list of bytes: the description that the code of
-- src/framework/source.rs is held against.
use plingo.Prelude.{
  ℕ, zero, suc, ◌+◌, ◌-◌, ◌≤◌, ◌<◌, ◌≡◌, refl, ap, ◌∙◌, List, [], ◌∷◌, ◌++◌, length, get_elem?,
  take, drop, arith,
}
use plingo.Source.Coordinates.{SourceSplice}

-- A splice and the bytes that it inserts.
abbrev pub Edit : Type 0
Edit = SourceSplice × List ℕ

-- The new text from an old cursor on, edit by edit from the left.
abbrev pub spliced : List ℕ → ℕ → List Edit → List ℕ
spliced old cursor [] = drop cursor old
spliced old cursor ((s, bytes) ∷ edits) =
    take (s.old_range.start - cursor) (drop cursor old)
    ++ (bytes ++ spliced old s.old_range.end edits)

abbrev pub splices_of : List Edit → List SourceSplice
splices_of [] = []
splices_of ((s, bytes) ∷ edits) = s ∷ splices_of edits

-- From two cursors on, the splices are in order, apart or adjacent, inside the old text, and their new
-- ranges are where the inserted bytes come to stand.
abbrev pub IsNormalized : ℕ → ℕ → ℕ → List Edit → Type 0
IsNormalized old_len oc nc [] = oc ≤ old_len
IsNormalized old_len oc nc ((s, bytes) ∷ edits) =
    (oc ≤ s.old_range.start)
    × (s.old_range.start ≤ s.old_range.end)
    × (s.new_range.start ≡ nc + (s.old_range.start - oc))
    × (s.new_range.end ≡ s.new_range.start + length bytes)
    × IsNormalized old_len s.old_range.end s.new_range.end edits

-- The position lies in the old range of no splice.
abbrev pub IsUnchanged : List Edit → ℕ → Type 0
IsUnchanged [] at = Unit
IsUnchanged ((s, bytes) ∷ edits) at =
    ((s.old_range.start ≤ at) → (s.old_range.end ≤ at)) × IsUnchanged edits at

pub IsNormalized-le :
    (old_len oc nc : ℕ) (edits : List Edit) → IsNormalized old_len oc nc edits → oc ≤ old_len
IsNormalized-le old_len oc nc [] n = n
IsNormalized-le old_len oc nc ((s, bytes) ∷ edits) n =
    omega (arith, n.0, n.1, IsNormalized-le old_len s.old_range.end s.new_range.end edits n.4)

pub get_elem?-take : (xs : List ℕ) (n i : ℕ) → i < n → get_elem? (take n xs) i ≡ get_elem? xs i
get_elem?-take xs zero i h = elim h [ ]
get_elem?-take [] (suc n) i h = refl
get_elem?-take (x ∷ xs) (suc n) zero h = refl
get_elem?-take (x ∷ xs) (suc n) (suc i) h = get_elem?-take xs n i (omega arith)

pub get_elem?-drop : (xs : List ℕ) (n i : ℕ) → get_elem? (drop n xs) i ≡ get_elem? xs (n + i)
get_elem?-drop xs zero i = ap (get_elem? xs) (omega arith)
get_elem?-drop [] (suc n) i = refl
get_elem?-drop (x ∷ xs) (suc n) i =
    let e : suc (n + i) ≡ suc n + i = omega arith in
    get_elem?-drop xs n i ∙ ap (get_elem? (x ∷ xs)) e
