-- ===== src/Tape/Allocating.antt =====
-- Code of src/framework/tape.rs that takes `&mut TapeIdAllocator`: it may panic where a counter
-- overflows, and says how many identities it takes at most.
use plingo.Prelude.{ℕ, ◌+◌, ◌≤◌, ◌≡◌, refl, ap, ◌∙◌, Option, none, some, arith, lt→ltb}
use plingo.Tape.Allocator.{TapeIdAllocator, u64_max, allocate}

abbrev pub Allocating : Type 0 → Type 0
Allocating A = TapeIdAllocator → Option (A × TapeIdAllocator)

infixl 5 ◌>>=◌
abbrev pub ◌>>=◌ : {A B : Type 0} → Allocating A → (A → Allocating B) → Allocating B
◌>>=◌ m f a = elim (m a) [ none ↦ none | some (x, b) ↦ f x b ]

abbrev pub returns : {A : Type 0} → A → Allocating A
returns x a = some (x, a)

-- A panic, or code that is not reached.
abbrev pub panics : {A : Type 0} → Allocating A
panics a = none

-- Both counters have room for `k` more identities.
abbrev pub Room : ℕ → TapeIdAllocator → Type 0
Room k a = (a.next + k ≤ u64_max) × (a.created + k ≤ u64_max)

-- From `a` to `b` at most `k` identities were taken.
abbrev pub Used : ℕ → TapeIdAllocator → TapeIdAllocator → Type 0
Used k a b =
    (a.next ≤ b.next)
    × (b.next ≤ a.next + k)
    × (a.created ≤ b.created)
    × (b.created ≤ a.created + k)

-- The code returns from `a`, takes at most `k` identities, and its result satisfies `P`.
abbrev pub Returns : {A : Type 0} → ℕ → Allocating A → TapeIdAllocator → (A → Type 0) → Type 0
Returns {A} k m a P = (x : A) × (b : TapeIdAllocator) × (m a ≡ some (x, b)) × Used k a b × P x

-- It does so wherever there is room for `k` identities.
abbrev pub Does : {A : Type 0} → ℕ → Allocating A → (A → Type 0) → Type 0
Does k m P = (a : TapeIdAllocator) → Room k a → Returns k m a P

module _ {A : Type 0} {P : A → Type 0} where
  pub Does-returns : (k : ℕ) (x : A) → P x → Does k (returns x) P
  Does-returns k x p a r = (x, a, refl, (omega arith, omega arith, omega arith, omega arith), p)

  pub Does-weaken : (j k : ℕ) (m : Allocating A) → j ≤ k → Does j m P → Does k m P
  Does-weaken j k m h d a r =
      let (x, b, e, u, p) = d a (omega (arith, h, r.0), omega (arith, h, r.1)) in
      (x, b, e, (omega arith, omega (arith, h, u.1), omega arith, omega (arith, h, u.3)), p)

  pub Does-imp :
      {Q : A → Type 0} (k : ℕ) (m : Allocating A) → ((x : A) → P x → Q x) → Does k m P → Does k m Q
  Does-imp k m f d a r = let (x, b, e, u, p) = d a r in (x, b, e, u, f x p)

  pub Does-bind :
      {B : Type 0} {Q : B → Type 0} (j k : ℕ) (m : Allocating A) (f : A → Allocating B)
      → Does j m P
      → ((x : A) → P x → Does k (f x) Q)
      → Does (j + k) (m >>= f) Q
  Does-bind j k m f d g a r =
      let (x, b, e, u, p) = d a (omega (arith, r.0), omega (arith, r.1)) in
      let (y, c, e2, u2, q) = g x p b (omega (arith, r.0, u.1), omega (arith, r.1, u.3)) in
      (
        y,
        c,
        ap (λ o. elim o [ none ↦ none | some (v, d) ↦ f v d ]) e ∙ e2,
        (
          omega (arith, u.0, u2.0),
          omega (arith, u.1, u2.1),
          omega (arith, u.2, u2.2),
          omega (arith, u.3, u2.3),
        ),
        q,
      )

pub allocate_lem : Does 1 allocate (λ id. Unit)
unfolding allocate
allocate_lem a r = (
  a.next,
  record { next = a.next + 1; created = a.created + 1 },
  rw (lt→ltb a.next u64_max (omega (arith, r.0)), lt→ltb a.created u64_max (omega (arith, r.1)))
      refl,
  (omega arith, omega arith, omega arith, omega arith),
  tt,
)
