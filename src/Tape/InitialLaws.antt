-- ===== src/Tape/InitialLaws.antt =====
-- `LeafOrderKey::initial` of src/framework/tape.rs: the labels of a fresh tape ascend.
use plingo.Prelude.{
  ℕ, zero, suc, ◌+◌, ◌-◌, ◌*◌, ◌/◌, ◌%◌, ◌^◌, ◌≤◌, ◌<◌, min, ◌≡◌, refl, sym, subst, ap, ◌∙◌, true,
  Bool-cases, ◌∷◌, some, leb, leb→le, leb→gt, gt→leb, ◌⊎◌, inl, inr, arith,
}
use native.Mathlib.Nat.{mul_assoc, mul-add, mul-add-div, div-eq_of_lt, pow-suc}
use plingo.Tape.OrderKey.{LeafOrderKey, cmp}
use plingo.Tape.Between.{
  ◌≺◌, is_positive, is_positive-canonical, cmp-canonical, cmp-canonical_right,
}
use plingo.Span.Located.{usize_max}
use plingo.Tape.Build.{initial_width, bits, initial_at}

pub two-pow_pos : (w : ℕ) → 0 < 2 ^ w
two-pow_pos zero = omega arith
two-pow_pos (suc w) = omega (arith, two-pow_pos w, pow-suc 2 w)

-- The bit at `w` of a number written with its parts above and below that bit.
bit_at : (w n q d r : ℕ) → n ≡ 2 ^ w * (2 * q + d) + r → d ≤ 1 → r < 2 ^ w → n / 2 ^ w % 2 ≡ d
bit_at w n q d r e h k =
    let quotient : n / 2 ^ w ≡ 2 * q + d =
      ap (λ x. x / 2 ^ w) e
      ∙ mul-add-div (two-pow_pos w) (2 * q + d) r
      ∙ omega (arith, div-eq_of_lt k) in
    omega (arith, quotient)

-- A number below 2 ^ (w + 1) is its bit at `w` and what is left.
abbrev TopBit : ℕ → ℕ → ℕ → ℕ → Type 0
TopBit w r d s = ((d ≡ 0) × (r ≡ s)) ⊎ ((d ≡ 1) × (r ≡ 2 ^ w + s))

split_bit :
    (w n q r : ℕ)
    → n ≡ 2 ^ suc w * q + r
    → r < 2 ^ suc w
    → (d : ℕ) × (s : ℕ) × TopBit w r d s
      × (s < 2 ^ w)
      × (n ≡ 2 ^ w * (2 * q + d) + s)
      × (n / 2 ^ w % 2 ≡ d)
split_bit w n q r e h =
    let shift : 2 ^ suc w * q ≡ 2 ^ w * (2 * q) =
      ap (λ k. k * q) (pow-suc 2 w) ∙ mul_assoc (2 ^ w) 2 q in
    elim (Bool-cases (leb (2 ^ w) r)) [
      | inl top ↦
          let rest : r - 2 ^ w < 2 ^ w = omega (arith, h, pow-suc 2 w) in
          let whole : n ≡ 2 ^ w * (2 * q + 1) + (r - 2 ^ w) =
            omega (arith, e, leb→le _ _ top, shift, mul-add (2 ^ w) (2 * q) 1) in
          (
            1,
            r - 2 ^ w,
            inr (refl, omega (arith, leb→le _ _ top)),
            rest,
            whole,
            bit_at w n q 1 (r - 2 ^ w) whole (omega arith) rest,
          )
      | inr low ↦
          let rest : r < 2 ^ w = leb→gt _ _ low in
          let whole : n ≡ 2 ^ w * (2 * q + 0) + r =
            omega (arith, e, shift, mul-add (2 ^ w) (2 * q) 0) in
          (0, r, inl (refl, refl), rest, whole, bit_at w n q 0 r whole (omega arith) rest)
    ]

cons_same : (a b : LeafOrderKey) (c d : ℕ) → c ≡ d → a ≺ b → (c ∷ a) ≺ (d ∷ b)
unfolding cmp
cons_same a b c d e h = ground arith

cons_less : (a b : LeafOrderKey) (c d : ℕ) → c < d → (c ∷ a) ≺ (d ∷ b)
unfolding cmp
cons_less a b c d h = ground arith

-- Numbers that agree above `w` bits are in the order of what they leave below.
bits_lt :
    (w n m q r s : ℕ)
    → n ≡ 2 ^ w * q + r
    → m ≡ 2 ^ w * q + s
    → s < 2 ^ w
    → r < s
    → bits w n ≺ bits w m
unfolding bits
bits_lt zero n m q r s e f h k = absurd (omega arith)
bits_lt (suc w) n m q r s e f h k =
    let (c, x, u, lx, e2, first) = split_bit w n q r e (omega arith) in
    let (d, y, v, ly, f2, second) = split_bit w m q s f h in
    let same : (z : ℕ)
        → c ≡ z
        → d ≡ z
        → x < y
        → (n / 2 ^ w % 2 ∷ bits w n) ≺ (m / 2 ^ w % 2 ∷ bits w m) =
      λ z p p2 o. cons_same _ _ _ _ (first ∙ p ∙ sym p2 ∙ sym second) (
        bits_lt w n m (2 * q + z) x y (subst (λ k. n ≡ 2 ^ w * (2 * q + k) + x) p e2)
          (subst (λ k. m ≡ 2 ^ w * (2 * q + k) + y) p2 f2) ly o) in
    elim u [
      | inl (c0, ex) ↦ elim v [
        | inl (d0, ey) ↦ same 0 c0 d0 (omega arith)
        | inr (d1, ey) ↦ cons_less _ _ _ _ (omega (arith, first, second, c0, d1))
      ]
      | inr (c1, ex) ↦ elim v [
        | inl (d0, ey) ↦ absurd (omega arith)
        | inr (d1, ey) ↦ same 1 c1 d1 (omega arith)
      ]
    ]

bits_positive :
    (w n q r : ℕ) → n ≡ 2 ^ w * q + r → r < 2 ^ w → 0 < r → is_positive (bits w n) ≡ true
unfolding bits
bits_positive zero n q r e h k = absurd (omega arith)
bits_positive (suc w) n q r e h k =
    let (c, x, u, lx, e2, first) = split_bit w n q r e h in
    elim u [
      | inl (c0, ex) ↦ rw (first, c0) (bits_positive w n (2 * q + c) x e2 lx (omega arith))
      | inr (c1, ex) ↦ rw (first, c1) refl
    ]

pub initial_width_lem :
    (fuel width total : ℕ)
    → total < 2 ^ (width + fuel)
    → total < 2 ^ 63
    → (w : ℕ) × (initial_width (suc fuel) width (2 ^ width) total ≡ some w) × (total < 2 ^ w)
unfolding initial_width
initial_width_lem zero width total h g =
    let lt : total < 2 ^ width = subst (λ k. total < 2 ^ k) (omega arith) h in
    (width, rw (gt→leb (2 ^ width) total lt) refl, lt)
initial_width_lem (suc fuel) width total h g = elim (Bool-cases (leb (2 ^ width) total)) [
  | inl more ↦
      let (w, e, lt) =
        initial_width_lem fuel (width + 1) total (subst (λ k. total < 2 ^ k) (omega arith) h) g in
      let next : 2 ^ (width + 1) ≡ 2 ^ suc width = ap (λ k. 2 ^ k) (omega arith) in
      let double : 2 ^ (width + 1) ≡ min usize_max (2 ^ width * 2) =
        omega (arith, next, pow-suc 2 width, leb→le _ _ more, g) in
      (w, rw more (subst (λ c. initial_width (suc fuel) (width + 1) c total ≡ some w) double e), lt)
  | inr enough ↦ (width, rw enough refl, leb→gt _ _ enough)
]

-- 64 turns give the same width for every ordinal, and the labels of that width are positive and
-- ascend.
pub initial_at-lt : (w i j : ℕ) → i < j → j + 1 < 2 ^ w → initial_at w i ≺ initial_at w j
initial_at-lt w i j h k =
    rw (cmp-canonical, cmp-canonical_right)
      (bits_lt w (i + 1) (j + 1) 0 (i + 1) (j + 1) (omega arith) (omega arith) k (omega arith))

pub initial_at_positive : (w i : ℕ) → i + 1 < 2 ^ w → is_positive (initial_at w i) ≡ true
initial_at_positive w i k =
    is_positive-canonical (bits w (i + 1))
    ∙ bits_positive w (i + 1) 0 (i + 1) (omega arith) k (omega arith)
