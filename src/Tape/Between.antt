-- ===== src/Tape/Between.antt =====
-- Dense labels: what `LeafOrderKey::between` of src/framework/tape.rs returns lies between its bounds.
use plingo.Prelude.{
  ℕ, zero, suc, ◌+◌, ◌-◌, ◌≤◌, ◌<◌, ◌≡◌, refl, sym, ap, subst, ◌∙◌, leb, leb→le, leb→gt, Bool, true,
  false, ◌==◌, is_lt, if◌then◌else◌, Option, none, some, List, [], ◌∷◌, ◌++◌, length, take,
  replicate, arith, Bool-cases, inl, inr, append_assoc,
}
use Prim.Native.Nat.{Ordering}
use plingo.Tape.OrderKey.{
  LeafOrderKey, cmp, canonical, half, resize, with_increment_at, before, after, search_between,
  between,
}

infix 50 ◌≺◌
abbrev pub ◌≺◌ : LeafOrderKey → LeafOrderKey → Type 0
a ≺ b = cmp a b ≡ Ordering.lt

-- Dropping zeros at the end changes no comparison.
pub cmp-canonical : (a b : List ℕ) → cmp (canonical a) b ≡ cmp a b
unfolding cmp canonical
cmp-canonical [] b = refl
cmp-canonical (x ∷ a) [] = ground (arith, cmp-canonical a [])
cmp-canonical (x ∷ a) (y ∷ b) = ground (arith, cmp-canonical a b)

pub cmp-canonical_right : (a b : List ℕ) → cmp a (canonical b) ≡ cmp a b
unfolding cmp canonical
cmp-canonical_right [] [] = refl
cmp-canonical_right (x ∷ a) [] = refl
cmp-canonical_right [] (y ∷ b) = ground (arith, cmp-canonical_right [] b)
cmp-canonical_right (x ∷ a) (y ∷ b) = ground (arith, cmp-canonical_right a b)

-- The label is not the fraction 0.
abbrev pub is_positive : LeafOrderKey → Bool
is_positive [] = false
is_positive (b ∷ bs) = if b == 0 then is_positive bs else true

pub is_positive-canonical : (a : List ℕ) → is_positive (canonical a) ≡ is_positive a
unfolding canonical
is_positive-canonical [] = refl
is_positive-canonical (b ∷ bs) = ground (arith, is_positive-canonical bs)

is_positive-append_one : (a : List ℕ) → is_positive (a ++ (1 ∷ [])) ≡ true
is_positive-append_one [] = refl
is_positive-append_one (b ∷ bs) = ground (arith, is_positive-append_one bs)

zeros_then_one : (n : ℕ) → [] ≺ (replicate n 0 ++ (1 ∷ []))
unfolding cmp
zeros_then_one zero = refl
zeros_then_one (suc n) = zeros_then_one n

-- A 1 behind the bits of a label makes a greater one.
lt-padded : (a : List ℕ) (n : ℕ) → a ≺ (a ++ (replicate n 0 ++ (1 ∷ [])))
unfolding cmp
lt-padded [] n = zeros_then_one n
lt-padded (b ∷ a) n = ground (arith, lt-padded a n)

not-lt-nil : (a : List ℕ) → is_lt (cmp a []) ≡ false
unfolding cmp
not-lt-nil [] = refl
not-lt-nil (b ∷ a) = ground (arith, not-lt-nil a)

-- A 1 far enough behind the bits of a label stays below every label above it.
padded-lt :
    (a b : List ℕ) (n : ℕ)
    → is_lt (cmp a b) ≡ true
    → length b ≤ length a + n
    → is_lt (cmp (a ++ (replicate n 0 ++ (1 ∷ []))) b) ≡ true
unfolding cmp
padded-lt [] [] n h k = cc
padded-lt (x ∷ a) [] n h k = ground (arith, not-lt-nil a)
padded-lt [] (y ∷ b) zero h k = absurd (omega arith)
padded-lt [] (y ∷ b) (suc n) h k = ground (arith, padded-lt [] b n)
padded-lt (x ∷ a) (y ∷ b) n h k = ground (arith, padded-lt a b n)

resize_wider :
    (a : List ℕ) (n : ℕ) → resize a (length a + n) ++ (1 ∷ []) ≡ a ++ (replicate n 0 ++ (1 ∷ []))
resize_wider a n =
    let whole : take (length a + n) a ≡ a = take_past a (length a + n) (omega arith) in
    let rest : length a + n - length a ≡ n = omega arith in
    rw (whole, rest) (append_assoc a (replicate n 0) (1 ∷ []))
  where
    take_past : (xs : List ℕ) (n : ℕ) → length xs ≤ n → take n xs ≡ xs
    take_past [] zero h = refl
    take_past [] (suc n) h = refl
    take_past (x ∷ xs) zero h = absurd (omega arith)
    take_past (x ∷ xs) (suc n) h = ap (x ∷◌) (take_past xs n (omega arith))

module _ (a : LeafOrderKey) (n : ℕ) where
  increment_eq :
      with_increment_at a (length a + 1 + n) ≡ canonical (a ++ (replicate n 0 ++ (1 ∷ [])))
  unfolding with_increment_at
  increment_eq =
      let e : length a + 1 + n - 1 ≡ length a + n = omega arith in rw (e, resize_wider a n)

  lt-with_increment_at : a ≺ with_increment_at a (length a + 1 + n)
  lt-with_increment_at = rw (increment_eq, cmp-canonical_right) (lt-padded a n)

  with_increment_at-lt :
      (b : LeafOrderKey)
      → is_lt (cmp a b) ≡ true
      → length b ≤ length a + n
      → is_lt (cmp (with_increment_at a (length a + 1 + n)) b) ≡ true
  with_increment_at-lt b h k = rw (increment_eq, cmp-canonical) (padded-lt a b n h k)

  is_positive-with_increment_at : is_positive (with_increment_at a (length a + 1 + n)) ≡ true
  is_positive-with_increment_at =
      rw (increment_eq, is_positive-canonical, ← append_assoc a (replicate n 0) (1 ∷ []))
        (is_positive-append_one (a ++ replicate n 0))

true-false : true ≡ false → ⊥
true-false e = cc

pub is_lt→lt : (o : Ordering) → is_lt o ≡ true → o ≡ Ordering.lt
is_lt→lt o h = ground arith

-- Half of a fraction that is not 0 is less.
shifted-lt : (bits : List ℕ) → is_positive bits ≡ true → (0 ∷ bits) ≺ bits
unfolding cmp
shifted-lt [] h = cc
shifted-lt (zero ∷ bits) h = shifted-lt bits h
shifted-lt (suc b ∷ bits) h = ground arith

before-lt : (key : LeafOrderKey) → is_positive key ≡ true → before key ≺ key
unfolding before
before-lt key h = rw cmp-canonical (shifted-lt key h)

before_positive : (key : LeafOrderKey) → is_positive key ≡ true → is_positive (before key) ≡ true
unfolding before
before_positive key h = rw is_positive-canonical h

-- What a new label has to satisfy between two bounds that may be absent.
abbrev pub Above : Option LeafOrderKey → LeafOrderKey → Type 0
Above none key = Unit
Above (some left) key = left ≺ key

abbrev pub Below : Option LeafOrderKey → LeafOrderKey → Type 0
Below none key = Unit
Below (some right) key = (key ≺ right) × (is_positive right ≡ true)

abbrev pub InOrder : Option LeafOrderKey → Option LeafOrderKey → Type 0
InOrder left none = Unit
InOrder none (some right) = is_positive right ≡ true
InOrder (some left) (some right) = (left ≺ right) × (is_positive right ≡ true)

abbrev pub size_of : Option LeafOrderKey → ℕ
size_of none = 0
size_of (some key) = length key

abbrev pub Between : Option LeafOrderKey → Option LeafOrderKey → Option LeafOrderKey → Type 0
Between left right found =
    (key : LeafOrderKey) × (found ≡ some key)
    × Above left key
    × Below right key
    × (is_positive key ≡ true)

-- Where the test fails, the candidate has fewer bits than the upper label.
too_short :
    (a b : LeafOrderKey) (n : ℕ)
    → a ≺ b
    → is_lt (cmp (with_increment_at a (length a + 1 + n)) b) ≡ false
    → length a + n < length b
too_short a b n h t = elim (Bool-cases (leb (length b) (length a + n))) [
  | inl p ↦ absurd (
      true-false (sym (with_increment_at-lt a n b (rw h) (leb→le (length b) (length a + n) p)) ∙ t))
  | inr p ↦ leb→gt (length b) (length a + n) p
]

search_between_lem :
    (fuel : ℕ) (a b : LeafOrderKey) (n : ℕ)
    → a ≺ b
    → is_positive b ≡ true
    → length b - (length a + n) < fuel
    → Between (some a) (some b) (search_between fuel a b (length a + 1 + n))
unfolding search_between
search_between_lem zero a b n h p k = elim k [ ]
search_between_lem (suc fuel) a b n h p k =
    elim (Bool-cases (is_lt (cmp (with_increment_at a (length a + 1 + n)) b))) [
      | inl t ↦ (
        with_increment_at a (length a + 1 + n),
        rw t,
        lt-with_increment_at a n,
        (is_lt→lt _ t, p),
        is_positive-with_increment_at a n,
      )
      | inr t ↦
          let e : length a + 1 + suc n ≡ length a + 1 + n + 1 = omega arith in
          let short = too_short a b n h t in
          let later = search_between_lem fuel a b (suc n) h p (omega (arith, short)) in
          rw t (subst (λ q. Between (some a) (some b) (search_between fuel a b q)) e later)
    ]

-- Between two labels in order, or beside one, or anywhere, `between` finds a label: the loop ends
-- within as many turns as the upper label has bits, and one more. The label lies strictly between
-- the bounds and is not 0.
pub between_lem :
    (fuel : ℕ) (left right : Option LeafOrderKey)
    → InOrder left right
    → size_of right < fuel
    → Between left right (between fuel left right)
unfolding between
between_lem fuel none none o h = (half, refl, tt, tt, refl)
between_lem fuel none (some right) o h =
    (before right, refl, tt, (before-lt right o, o), before_positive right o)
between_lem fuel (some left) none o h =
    let e : length left + 1 + 0 ≡ length left + 1 = omega arith in
    (
      after left,
      refl,
      (unfold after in
          subst (λ q. left ≺ with_increment_at left q) e (lt-with_increment_at left 0)),
      tt,
      (unfold after in
          subst (λ q. is_positive (with_increment_at left q) ≡ true) e
            (is_positive-with_increment_at left 0)),
    )
between_lem fuel (some left) (some right) o h =
    let e : length left + 1 + 0 ≡ length left + 1 = omega arith in
    subst (λ q. Between (some left) (some right) (search_between fuel left right q)) e
      (search_between_lem fuel left right 0 o.0 o.1 (omega arith))
