-- ===== src/Grammar/NullableLaws.antt =====
-- `compute_nullable_sets` of src/framework/parse/analyze.rs against derivations of the empty string.
use plingo.Prelude.{
  ℕ, zero, suc, ◌+◌, ◌≤◌, ◌<◌, ◌≡◌, refl, sym, ap, subst, ◌∙◌, Bool, true, false, if◌then◌else◌,
  Option, none, some, ◌>>=◌, List, [], ◌∷◌, length, get_elem?, set, replicate, length-set,
  length-replicate, get_elem?-inside, arith, inl, inr, ◌↔◌, ◌⊎◌,
}
use plingo.Grammar.Symbols.{
  Symbol, terminal, non_terminal, epsilon, Production, Grammar, production_rhs, InRange, IsProper,
  AllProper, HasRule, Nullable, done, skip, expand,
}
use plingo.Grammar.Nullable.{
  BitVec, all_nullable, mark, nullable_step, nullable_pass, nullable_loop, compute_nullable_sets,
}

all_nullable_total :
    (v : BitVec) (symbols : List Symbol)
    → InRange (length v) symbols
    → (b : Bool) × (all_nullable v symbols ≡ some b)
unfolding all_nullable
all_nullable_total v [] h = (true, refl)
all_nullable_total v (terminal t ∷ symbols) h = (false, refl)
all_nullable_total v (epsilon ∷ symbols) h = all_nullable_total v symbols h
all_nullable_total v (non_terminal id ∷ symbols) h =
    let (b, e) = all_nullable_total v symbols h.1 in
    let (known, k) = get_elem?-inside v id h.0 in
    (if known then b else false, rw (k, e) (both known b))
  where
    both :
        (known b : Bool)
        → (if known then some b else some false) ≡ some (if known then b else false)
    both true b = refl
    both false b = refl

-- How many bits are not set.
abbrev pub unset : BitVec → ℕ
unset [] = 0
unset (true ∷ v) = unset v
unset (false ∷ v) = suc (unset v)

abbrev pub weight : Bool → ℕ
weight true = 1
weight false = 0

unset-set : (v : BitVec) (i : ℕ) → get_elem? v i ≡ some false → suc (unset (set v i true)) ≡ unset v
unset-set [] i e = cc
unset-set (b ∷ v) zero e = let same : b ≡ false = cc in rw same refl
unset-set (true ∷ v) (suc i) e = unset-set v i e
unset-set (false ∷ v) (suc i) e = ap suc (unset-set v i e)

pub get_elem?-set :
    (v : BitVec) (i k : ℕ)
    → get_elem? (set v i true) k ≡ some true
    → (get_elem? v k ≡ some true) ⊎ (k ≡ i)
get_elem?-set [] i k e = inl e
get_elem?-set (b ∷ v) zero zero e = inr refl
get_elem?-set (b ∷ v) zero (suc k) e = inl e
get_elem?-set (b ∷ v) (suc i) zero e = inl e
get_elem?-set (b ∷ v) (suc i) (suc k) e = elim (get_elem?-set v i k e) [
  | inl h ↦ inl h
  | inr h ↦ inr (ap suc h)
]

-- Every bit that is set says that its non-terminal derives the empty string.
abbrev Sound : Grammar → BitVec → Type 0
Sound g v =
    (lhs : ℕ)
    → get_elem? v lhs ≡ some true
    → (rhs : List Symbol) × HasRule g lhs rhs × Nullable g rhs

-- Both tests of a sequence hold where the sequence passes.
pub both_set :
    (known rest : Option Bool)
    → (known >>= λ b. if b then rest else some false) ≡ some true
    → (known ≡ some true) × (rest ≡ some true)
both_set none rest e = cc
both_set (some true) rest e = (refl, e)
both_set (some false) rest e = cc

all_nullable-Sound :
    (g : Grammar) (v : BitVec) (symbols : List Symbol)
    → Sound g v
    → all_nullable v symbols ≡ some true
    → Nullable g symbols
unfolding all_nullable
all_nullable-Sound g v [] s e = done
all_nullable-Sound g v (terminal t ∷ symbols) s e = cc
all_nullable-Sound g v (epsilon ∷ symbols) s e = skip (all_nullable-Sound g v symbols s e)
all_nullable-Sound g v (non_terminal id ∷ symbols) s e =
    let (known, later) = both_set (get_elem? v id) (all_nullable v symbols) e in
    let (rhs, rule, d) = s id known in expand rule d (all_nullable-Sound g v symbols s later)

-- What marking a left-hand side does to the bits.
abbrev Marked : BitVec → Bool → ℕ → Bool → BitVec → Bool → Type 0
Marked v c lhs b w d =
    (length w ≡ length v)
    × (unset w + weight d ≤ unset v + weight c)
    × (d ≡ false → (c ≡ false) × (w ≡ v) × (b ≡ true → get_elem? v lhs ≡ some true))
    × ((k : ℕ) → get_elem? w k ≡ some true → (get_elem? v k ≡ some true) ⊎ ((k ≡ lhs) × (b ≡ true)))

mark_lem :
    (v : BitVec) (c : Bool) (lhs : ℕ) (b : Bool)
    → lhs < length v
    → (w : BitVec) × (d : Bool) × (mark v c lhs b ≡ some (w, d)) × Marked v c lhs b w d
unfolding mark
mark_lem v c lhs false h = (v, c, refl, (refl, omega arith, λ e. (e, refl, λ f. cc), λ k e. inl e))
mark_lem v c lhs true h = let (known, k) = get_elem?-inside v lhs h in by_bit known k
  where
    by_bit :
        (known : Bool)
        → get_elem? v lhs ≡ some known
        → (w : BitVec) × (d : Bool) × (mark v c lhs true ≡ some (w, d)) × Marked v c lhs true w d
    by_bit true k = (v, c, rw k refl, (refl, omega arith, λ e. (e, refl, λ f. k), λ i e. inl e))
    by_bit false k = (
      set v lhs true,
      true,
      rw k refl,
      (
        length-set v lhs true,
        omega (arith, unset-set v lhs k),
        λ e. cc,
        λ i e. elim (get_elem?-set v lhs i e) [ inl p ↦ inl p | inr p ↦ inr (p, refl) ],
      ),
    )

-- A production whose right-hand side passes the test has its bit set.
abbrev Closes : Grammar → BitVec → Production → Type 0
Closes g v p =
    (rhs : List Symbol)
    → production_rhs g p.id ≡ some rhs
    → all_nullable v rhs ≡ some true
    → get_elem? v p.lhs ≡ some true

abbrev Closed : Grammar → BitVec → List Production → Type 0
Closed g v [] = Unit
Closed g v (p ∷ productions) = Closes g v p × Closed g v productions

-- What some productions of a turn do to the bits and the flag.
abbrev Advance : Grammar → List Production → BitVec → Bool → BitVec → Bool → Type 0
Advance g productions v c w d =
    (length w ≡ length v)
    × (Sound g v → Sound g w)
    × (unset w + weight d ≤ unset v + weight c)
    × (d ≡ false → (c ≡ false) × (w ≡ v) × Closed g v productions)

-- The productions are some of the grammar's.
abbrev pub Among : Grammar → List Production → Type 0
Among g [] = Unit
Among g (p ∷ productions) = ((k : ℕ) × (get_elem? g.productions k ≡ some p)) × Among g productions

nullable_step_lem :
    (g : Grammar) (p : Production) (v : BitVec) (c : Bool)
    → (k : ℕ) × (get_elem? g.productions k ≡ some p)
    → IsProper g p
    → length v ≡ length g.non_terminals
    → (w : BitVec) × (d : Bool) × (nullable_step g p v c ≡ some (w, d)) × Advance g (p ∷ []) v c w d
unfolding nullable_step
nullable_step_lem g p v c (k, at) (inside, rhs, e, range) h =
    let (b, all) = all_nullable_total v rhs (rw h range) in
    let (w, d, done_, marked) = mark_lem v c p.lhs b (omega (arith, h, inside)) in
    (
      w,
      d,
      rw (e, all) done_,
      (
        marked.0,
        λ s i f. elim (marked.3 i f) [
          | inl q ↦ s i q
          | inr q ↦ (rhs, (k, p, at, sym q.0, e), all_nullable-Sound g v rhs s (all ∙ ap some q.1))
        ],
        marked.1,
        λ f.
            let (g0, same, set_) = marked.2 f in
            (
              g0,
              same,
              (
                λ other o all_other.
                    let rhs_same : rhs ≡ other = cc in let b_true : b ≡ true = cc in set_ b_true,
                tt,
              ),
            ),
      ),
    )

nullable_pass_lem :
    (g : Grammar) (productions : List Production) (v : BitVec) (c : Bool)
    → Among g productions
    → AllProper g productions
    → length v ≡ length g.non_terminals
    → (w : BitVec) × (d : Bool) × (nullable_pass g productions v c ≡ some (w, d))
      × Advance g productions v c w d
unfolding nullable_pass
nullable_pass_lem g [] v c a w h = (v, c, refl, (refl, λ s. s, omega arith, λ e. (e, refl, tt)))
nullable_pass_lem g (p ∷ productions) v c a proper h =
    let (v1, c1, e1, s1) = nullable_step_lem g p v c a.0 proper.0 h in
    let (v2, c2, e2, s2) = nullable_pass_lem g productions v1 c1 a.1 proper.1 (s1.0 ∙ h) in
    (
      v2,
      c2,
      rw e1 e2,
      (
        s2.0 ∙ s1.0,
        λ s. s2.1 (s1.1 s),
        omega (arith, s1.2, s2.2),
        λ e.
            let (f1, same2, closed2) = s2.3 e in
            let (f0, same1, closed1) = s1.3 f1 in
            (f0, same2 ∙ same1, (closed1.0, subst (λ x. Closed g x productions) same1 closed2)),
      ),
    )

-- A result whose bits are sound, and which no production adds to.
abbrev Settled : Grammar → Option BitVec → Type 0
Settled g found =
    (w : BitVec) × (found ≡ some w)
    × (length w ≡ length g.non_terminals)
    × Sound g w
    × Closed g w g.productions

nullable_loop_lem :
    (fuel : ℕ) (g : Grammar) (v : BitVec)
    → Among g g.productions
    → AllProper g g.productions
    → length v ≡ length g.non_terminals
    → Sound g v
    → unset v < fuel
    → Settled g (nullable_loop fuel g v)
unfolding nullable_loop
nullable_loop_lem zero g v a p h s k = absurd (omega arith)
nullable_loop_lem (suc fuel) g v a p h s k =
    let (w, d, e, adv) = nullable_pass_lem g g.productions v false a p h in
    by_change w d e adv (nullable_loop_lem fuel g w a p (adv.0 ∙ h) (adv.1 s))
  where
    by_change :
        (w : BitVec) (d : Bool)
        → nullable_pass g g.productions v false ≡ some (w, d)
        → Advance g g.productions v false w d
        → (unset w < fuel → Settled g (nullable_loop fuel g w))
        → Settled g (nullable_loop (suc fuel) g v)
    by_change w true e adv again = rw e (again (omega (arith, adv.2, k)))
    by_change w false e adv again =
        let (f, same, closed) = adv.3 refl in
        (w, rw e refl, adv.0 ∙ h, adv.1 s, subst (λ x. Closed g x g.productions) (sym same) closed)

-- Bits that no production adds to are set for all that derives the empty string.
Closed-get_elem? :
    (g : Grammar) (v : BitVec) (productions : List Production) (k : ℕ) (p : Production)
    → Closed g v productions
    → get_elem? productions k ≡ some p
    → Closes g v p
Closed-get_elem? g v [] k p c e = cc
Closed-get_elem? g v (q ∷ productions) zero p c e =
    let same : q ≡ p = cc in subst (Closes g v) same c.0
Closed-get_elem? g v (q ∷ productions) (suc k) p c e = Closed-get_elem? g v productions k p c.1 e

Nullable-all_nullable :
    (g : Grammar) (v : BitVec) (symbols : List Symbol)
    → Closed g v g.productions
    → Nullable g symbols
    → all_nullable v symbols ≡ some true
unfolding all_nullable
Nullable-all_nullable g v _ c done = refl
Nullable-all_nullable g v _ c (skip d) = Nullable-all_nullable g v _ c d
Nullable-all_nullable g v _ c (expand (k, p, at, same, e) d rest) =
    let bit = Closed-get_elem? g v g.productions k p c at _ e (Nullable-all_nullable g v _ c d) in
    rw (sym same, bit) (Nullable-all_nullable g v _ c rest)

pub unset-replicate : (n : ℕ) → unset (replicate n false) ≡ n
unset-replicate zero = refl
unset-replicate (suc n) = ap suc (unset-replicate n)

-- Fresh bits are not set.
pub no_bit : (n i : ℕ) → get_elem? (replicate n false) i ≡ some true → ⊥
no_bit zero i e = cc
no_bit (suc n) zero e = cc
no_bit (suc n) (suc i) e = no_bit n i e

replicate-Sound : (g : Grammar) (n : ℕ) → Sound g (replicate n false)
replicate-Sound g n lhs e = absurd (no_bit n lhs e)

-- The productions of a grammar are among them.
pub Among-whole : (g : Grammar) → Among g g.productions
Among-whole g = from g.productions (λ k p e. (k, e))
  where
    from :
        (productions : List Production)
        → ((k : ℕ) (p : Production)
            → get_elem? productions k ≡ some p
            → (j : ℕ) × (get_elem? g.productions j ≡ some p))
        → Among g productions
    from [] f = tt
    from (p ∷ productions) f = (f 0 p refl, from productions (λ k q e. f (suc k) q e))

-- For a grammar whose productions are in range, the loop ends within one turn more than there are
-- non-terminals, no index is out of bounds, and a bit is set exactly where the non-terminal derives
-- the empty string.
pub compute_nullable_sets_lem :
    (g : Grammar)
    → AllProper g g.productions
    → (v : BitVec) × (compute_nullable_sets g ≡ some v)
      × (length v ≡ length g.non_terminals)
      × ((id : ℕ) → (get_elem? v id ≡ some true) ↔ Nullable g (non_terminal id ∷ []))
unfolding compute_nullable_sets all_nullable
compute_nullable_sets_lem g p =
    let n : ℕ = length g.non_terminals in
    let (v, e, l, sound, closed) =
      nullable_loop_lem (n + 1) g (replicate n false) (Among-whole g) p (length-replicate n false)
        (replicate-Sound g n) (omega (arith, unset-replicate n)) in
    (
      v,
      e,
      l,
      λ id. (
        λ h. let (rhs, rule, d) = sound id h in expand rule d done,
        λ d. bit_set v id (Nullable-all_nullable g v _ closed d),
      ),
    )
  where
    bit_set :
        (v : BitVec) (id : ℕ)
        → all_nullable v (non_terminal id ∷ []) ≡ some true
        → get_elem? v id ≡ some true
    bit_set v id e = by_bit (get_elem? v id) e
      where
        by_bit :
            (known : Option Bool)
            → (known >>= λ b. if b then some true else some false) ≡ some true
            → known ≡ some true
        by_bit none e = e
        by_bit (some true) e = refl
        by_bit (some false) e = cc
