-- ===== src/Prelude/Lists.antt =====
-- Lists measured and indexed by native numbers: what the source does with `Vec` and slices.
use Prim.Native.Nat.{ℕ, zero, suc, ◌+◌, ◌-◌, ◌≤◌, ◌<◌, min}
use mathlib.Core.Path.{◌≡◌, refl, sym, ap, ◌∙◌}
use mathlib.Core.List.{List, [], ◌∷◌, ◌++◌}
use mathlib.Core.Option.{Option, none, some}
use native.Mathlib.Omega.{arith}

module _ {ℓ} {A : Type ℓ} where
  abbrev pub length : List A → ℕ
  length [] = 0
  length (x ∷ xs) = suc (length xs)

  abbrev pub get_elem? : List A → ℕ → Option A
  get_elem? [] i = none
  get_elem? (x ∷ xs) zero = some x
  get_elem? (x ∷ xs) (suc i) = get_elem? xs i

  -- A write out of bounds changes nothing.
  abbrev pub set : List A → ℕ → A → List A
  set [] i v = []
  set (x ∷ xs) zero v = v ∷ xs
  set (x ∷ xs) (suc i) v = x ∷ set xs i v

  abbrev pub take : ℕ → List A → List A
  take zero xs = []
  take (suc n) [] = []
  take (suc n) (x ∷ xs) = x ∷ take n xs

  abbrev pub drop : ℕ → List A → List A
  drop zero xs = xs
  drop (suc n) [] = []
  drop (suc n) (x ∷ xs) = drop n xs

  abbrev pub replicate : ℕ → A → List A
  replicate zero a = []
  replicate (suc n) a = a ∷ replicate n a

  pub length-append : (xs ys : List A) → length (xs ++ ys) ≡ length xs + length ys
  length-append [] ys = omega arith
  length-append (x ∷ xs) ys = omega (arith, length-append xs ys)

  pub take-append-drop : (n : ℕ) (xs : List A) → take n xs ++ drop n xs ≡ xs
  take-append-drop zero xs = refl
  take-append-drop (suc n) [] = refl
  take-append-drop (suc n) (x ∷ xs) = ap (x ∷◌) (take-append-drop n xs)

  pub length-take : (n : ℕ) (xs : List A) → length (take n xs) ≡ min n (length xs)
  length-take zero xs = omega arith
  length-take (suc n) [] = omega arith
  length-take (suc n) (x ∷ xs) = omega (arith, length-take n xs)

  pub length-drop : (n : ℕ) (xs : List A) → length (drop n xs) ≡ length xs - n
  length-drop zero xs = omega arith
  length-drop (suc n) [] = omega arith
  length-drop (suc n) (x ∷ xs) = omega (arith, length-drop n xs)

  pub length-set : (xs : List A) (i : ℕ) (v : A) → length (set xs i v) ≡ length xs
  length-set [] i v = refl
  length-set (x ∷ xs) zero v = refl
  length-set (x ∷ xs) (suc i) v = ap suc (length-set xs i v)

module _ {ℓ} {A : Type ℓ} where
  -- An index into a concatenation falls in the first list or in the second.
  pub get_elem?-append_left :
      (xs ys : List A) (i : ℕ) → i < length xs → get_elem? (xs ++ ys) i ≡ get_elem? xs i
  get_elem?-append_left [] ys i h = elim h [ ]
  get_elem?-append_left (x ∷ xs) ys zero h = refl
  get_elem?-append_left (x ∷ xs) ys (suc i) h = get_elem?-append_left xs ys i (omega arith)

  pub get_elem?-append_right :
      (xs ys : List A) (i : ℕ)
      → length xs ≤ i
      → get_elem? (xs ++ ys) i ≡ get_elem? ys (i - length xs)
  get_elem?-append_right [] ys i h = ap (get_elem? ys) (omega arith)
  get_elem?-append_right (x ∷ xs) ys zero h = absurd (omega arith)
  get_elem?-append_right (x ∷ xs) ys (suc i) h =
      get_elem?-append_right xs ys i (omega arith) ∙ ap (get_elem? ys) (omega arith)

  pub take-append_left : (xs ys : List A) (i : ℕ) → i ≤ length xs → take i (xs ++ ys) ≡ take i xs
  take-append_left xs ys zero h = refl
  take-append_left [] ys (suc i) h = absurd (omega arith)
  take-append_left (x ∷ xs) ys (suc i) h = ap (x ∷◌) (take-append_left xs ys i (omega arith))

  pub drop-append_left :
      (xs ys : List A) (i : ℕ) → i ≤ length xs → drop i (xs ++ ys) ≡ drop i xs ++ ys
  drop-append_left xs ys zero h = refl
  drop-append_left [] ys (suc i) h = absurd (omega arith)
  drop-append_left (x ∷ xs) ys (suc i) h = drop-append_left xs ys i (omega arith)

  pub take-append_right :
      (xs ys : List A) (i : ℕ) → length xs ≤ i → take i (xs ++ ys) ≡ xs ++ take (i - length xs) ys
  take-append_right [] ys i h = ap (λ k. take k ys) (omega arith)
  take-append_right (x ∷ xs) ys zero h = absurd (omega arith)
  take-append_right (x ∷ xs) ys (suc i) h =
      ap (x ∷◌) (take-append_right xs ys i (omega arith) ∙ ap (λ k. xs ++ take k ys) (omega arith))

  pub drop-append_right :
      (xs ys : List A) (i : ℕ) → length xs ≤ i → drop i (xs ++ ys) ≡ drop (i - length xs) ys
  drop-append_right [] ys i h = ap (λ k. drop k ys) (omega arith)
  drop-append_right (x ∷ xs) ys zero h = absurd (omega arith)
  drop-append_right (x ∷ xs) ys (suc i) h =
      drop-append_right xs ys i (omega arith) ∙ ap (λ k. drop k ys) (omega arith)

module _ {ℓ} {A : Type ℓ} where
  pub take-nil : (n : ℕ) → take {A = A} n [] ≡ []
  take-nil zero = refl
  take-nil (suc n) = refl

  pub drop-nil : (n : ℕ) → drop {A = A} n [] ≡ []
  drop-nil zero = refl
  drop-nil (suc n) = refl

  pub take-length : (xs : List A) → take (length xs) xs ≡ xs
  take-length [] = refl
  take-length (x ∷ xs) = ap (x ∷◌) (take-length xs)

  pub drop-length : (xs : List A) → drop (length xs) xs ≡ []
  drop-length [] = refl
  drop-length (x ∷ xs) = drop-length xs

  pub drop-drop : (n k : ℕ) (xs : List A) → drop n (drop k xs) ≡ drop (k + n) xs
  drop-drop n zero xs = ap (λ m. drop m xs) (omega arith)
  drop-drop n (suc k) [] = drop-nil n ∙ sym (drop-nil (suc k + n))
  drop-drop n (suc k) (x ∷ xs) =
      let e : suc (k + n) ≡ suc k + n = omega arith in
      drop-drop n k xs ∙ ap (λ m. drop m (x ∷ xs)) e

  pub get_elem?-past : (xs : List A) (i : ℕ) → length xs ≤ i → get_elem? xs i ≡ none
  get_elem?-past [] i h = refl
  get_elem?-past (x ∷ xs) zero h = absurd (omega arith)
  get_elem?-past (x ∷ xs) (suc i) h = get_elem?-past xs i (omega arith)

  -- The two parts of a concatenation, by the length of the first.
  pub take_front : (xs ys : List A) (i : ℕ) → i ≡ length xs → take i (xs ++ ys) ≡ xs
  take_front [] ys i e = rw e
  take_front (x ∷ xs) ys i e = rw (e, take_front xs ys (length xs) refl)

  pub drop_front : (xs ys : List A) (i : ℕ) → i ≡ length xs → drop i (xs ++ ys) ≡ ys
  drop_front [] ys i e = rw e
  drop_front (x ∷ xs) ys i e = rw (e, drop_front xs ys (length xs) refl)

module _ {ℓ} {A : Type ℓ} where
  pub length-replicate : (n : ℕ) (a : A) → length (replicate n a) ≡ n
  length-replicate zero a = refl
  length-replicate (suc n) a = ap suc (length-replicate n a)

  pub get_elem?-inside : (xs : List A) (i : ℕ) → i < length xs → (x : A) × (get_elem? xs i ≡ some x)
  get_elem?-inside [] i h = absurd (omega arith)
  get_elem?-inside (x ∷ xs) zero h = (x, refl)
  get_elem?-inside (x ∷ xs) (suc i) h = get_elem?-inside xs i (omega arith)

  -- An index past the end of a list is as good as its length.
  pub take-min : (n : ℕ) (x : List A) → take (min n (length x)) x ≡ take n x
  take-min zero [] = refl
  take-min zero (a ∷ x) =
      ap (λ k. take k (a ∷ x)) {x = min zero (suc (length x))} {y = zero} (omega arith)
  take-min (suc n) [] = take-nil (min (suc n) 0)
  take-min (suc n) (a ∷ x) =
      ap (λ k. take k (a ∷ x)) {x = min (suc n) (suc (length x))} {y = suc (min n (length x))}
        (omega arith)
      ∙ ap (a ∷◌) (take-min n x)

  pub drop-min : (n : ℕ) (x : List A) → drop (min n (length x)) x ≡ drop n x
  drop-min zero [] = refl
  drop-min zero (a ∷ x) =
      ap (λ k. drop k (a ∷ x)) {x = min zero (suc (length x))} {y = zero} (omega arith)
  drop-min (suc n) [] = drop-nil (min (suc n) 0)
  drop-min (suc n) (a ∷ x) =
      ap (λ k. drop k (a ∷ x)) {x = min (suc n) (suc (length x))} {y = suc (min n (length x))}
        (omega arith)
      ∙ drop-min n x

  pub get_elem?-take :
      (n : ℕ) (xs : List A) (i : ℕ) → i < n → get_elem? (take n xs) i ≡ get_elem? xs i
  get_elem?-take zero xs i h = absurd (omega arith)
  get_elem?-take (suc n) [] i h = refl
  get_elem?-take (suc n) (x ∷ xs) zero h = refl
  get_elem?-take (suc n) (x ∷ xs) (suc i) h = get_elem?-take n xs i (omega arith)

  pub get_elem?-drop :
      (n : ℕ) (xs : List A) (i : ℕ) → get_elem? (drop n xs) i ≡ get_elem? xs (n + i)
  get_elem?-drop zero xs i = ap (get_elem? xs) (omega arith)
  get_elem?-drop (suc n) [] i = refl
  get_elem?-drop (suc n) (x ∷ xs) i =
      get_elem?-drop n xs i
      ∙ ap (get_elem? (x ∷ xs)) {x = suc (n + i)} {y = suc n + i} (omega arith)

  pub take-append :
      (n : ℕ) (xs ys : List A) → take n (xs ++ ys) ≡ take n xs ++ take (n - length xs) ys
  take-append zero [] ys = ap (λ k. take k ys) {x = zero} {y = zero - 0} (omega arith)
  take-append (suc n) [] ys = ap (λ k. take k ys) {x = suc n} {y = suc n - 0} (omega arith)
  take-append zero (x ∷ xs) ys =
      ap (λ k. take k ys) {x = zero} {y = zero - suc (length xs)} (omega arith)
  take-append (suc n) (x ∷ xs) ys =
      ap (x ∷◌) (take-append n xs ys ∙ ap (λ k. take n xs ++ take k ys) (omega arith))

  pub drop-append :
      (n : ℕ) (xs ys : List A) → drop n (xs ++ ys) ≡ drop n xs ++ drop (n - length xs) ys
  drop-append zero [] ys = refl
  drop-append (suc n) [] ys = ap (λ k. drop k ys) {x = suc n} {y = suc n - 0} (omega arith)
  drop-append zero (x ∷ xs) ys =
      ap (λ k. (x ∷ xs) ++ drop k ys) {x = zero} {y = zero - suc (length xs)} (omega arith)
  drop-append (suc n) (x ∷ xs) ys =
      drop-append n xs ys ∙ ap (λ k. drop n xs ++ drop k ys) (omega arith)

  -- The elements from one index up to another.
  abbrev pub slice : ℕ → ℕ → List A → List A
  slice start stop xs = take (stop - start) (drop start xs)

  pub slice-append :
      (start stop : ℕ) (xs ys : List A)
      → slice start stop (xs ++ ys)
        ≡ slice start stop xs ++ slice (start - length xs) (stop - length xs) ys
  slice-append start stop xs ys =
      ap (take (stop - start)) (drop-append start xs ys)
      ∙ take-append (stop - start) (drop start xs) (drop (start - length xs) ys)
      ∙ ap (λ k. slice start stop xs ++ take k (drop (start - length xs) ys))
          {x = stop - start - length (drop start xs)} {y = stop - length xs - (start - length xs)}
          (omega (arith, length-drop start xs))
