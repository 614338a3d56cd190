-- ===== src/Tape/Allocator.antt =====
-- `TapeIdAllocator` of src/framework/tape.rs: checked identities for immutable nodes.
use plingo.Prelude.{
  ℕ, zero, suc, ◌+◌, ◌-◌, ◌^◌, ◌≤◌, ◌<◌, ◌≡◌, refl, ltb, if◌then◌else◌, Option, none, some, ◌>>=◌,
  List, [], ◌∷◌, arith, lt→ltb,
}

abbrev pub u64_max : ℕ
u64_max = 2 ^ 64 - 1

pub record TapeIdAllocator : Type 0 where
  pub next : ℕ
  pub created : ℕ

abbrev pub new : TapeIdAllocator
new = record { next = 1; created = 0 }

-- `checked_add(1).expect(..)`: `none` is the panic.
abbrev pub checked_suc : ℕ → Option ℕ
checked_suc n = if ltb n u64_max then some (n + 1) else none

unfoldable pub allocate : TapeIdAllocator → Option (ℕ × TapeIdAllocator)
allocate a = do
  next ← checked_suc a.next
  created ← checked_suc a.created
  some (a.next, record { next = next; created = created })

-- `saturating_sub`, which stops at 0.
abbrev pub created_since : TapeIdAllocator → ℕ → ℕ
created_since a checkpoint = a.created - checkpoint

abbrev pub checkpoint : TapeIdAllocator → ℕ
checkpoint a = a.created

-- `count` identities, one behind the other.
pub allocate_all : ℕ → TapeIdAllocator → Option (List ℕ × TapeIdAllocator)
unfolding allocate
allocate_all zero a = some ([], a)
allocate_all (suc count) a = do
  (id, b) ← allocate a
  (ids, c) ← allocate_all count b
  some (id ∷ ids, c)

-- `n`, `n + 1`, … as many as asked for.
abbrev pub serials : ℕ → ℕ → List ℕ
serials zero n = []
serials (suc count) n = n ∷ serials count (n + 1)

allocate_ok :
    (a : TapeIdAllocator)
    → a.next < u64_max
    → a.created < u64_max
    → allocate a ≡ some (a.next, record { next = a.next + 1; created = a.created + 1 })
unfolding allocate
allocate_ok a h k = rw (lt→ltb a.next u64_max h, lt→ltb a.created u64_max k)

allocate_all_counts :
    (count : ℕ) (a : TapeIdAllocator)
    → a.next + count ≤ u64_max
    → a.created + count ≤ u64_max
    → (b : TapeIdAllocator) × (allocate_all count a ≡ some (serials count a.next, b))
      × (b.next ≡ a.next + count)
      × (b.created ≡ a.created + count)
unfolding allocate_all
allocate_all_counts zero a h k = (a, refl, omega arith, omega arith)
allocate_all_counts (suc count) a h k =
    let b : TapeIdAllocator = record { next = a.next + 1; created = a.created + 1 } in
    let (c, e, n, m) = allocate_all_counts count b (omega arith) (omega arith) in
    (c, rw (allocate_ok a (omega arith) (omega arith), e), omega (arith, n), omega (arith, m))

-- While the 64-bit counters last, allocations give consecutive identities, none of them twice, and
-- `created_since` a checkpoint counts them.
pub allocate_all_lem :
    (count : ℕ) (a : TapeIdAllocator)
    → a.next + count ≤ u64_max
    → a.created + count ≤ u64_max
    → (b : TapeIdAllocator) × (allocate_all count a ≡ some (serials count a.next, b))
      × (b.next ≡ a.next + count)
      × (created_since b (checkpoint a) ≡ count)
allocate_all_lem count a h k =
    let (b, e, n, m) = allocate_all_counts count a h k in (b, e, n, omega (arith, m))
