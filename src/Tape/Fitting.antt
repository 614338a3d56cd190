-- ===== src/Tape/Fitting.antt =====
-- `from_entries` and `rekey_between` of src/framework/tape.rs: a tape with given entries, its labels
-- between two bounds.
use plingo.Prelude.{
  Bool, ℕ, ◌+◌, ◌-◌, ◌*◌, ◌/◌, ◌^◌, ◌≤◌, ◌<◌, max, ◌≡◌, refl, sym, subst, ap, true, false, ◌&&◌,
  Bool-cases, List, [], ◌∷◌, Option, none, some, length, inl, inr, is_lt, arith,
}
use plingo.Tape.OrderKey.{LeafOrderKey}
use plingo.Tape.Between.{is_positive, Above, Below, InOrder, is_lt→lt}
use plingo.Tape.Allocating.{
  Allocating, returns, Does, Does-returns, Does-bind, Does-weaken, Does-imp,
}
use plingo.Tape.Metric.{TapeEntry}
use plingo.Tape.Node.{TapeNode, leaf_max, first_order, last_order}
use plingo.Tape.Build.{chunks, build_balanced, initial_leaves, leaves_between}
use plingo.Tape.InitialLaws.{initial_width_lem}
use plingo.Tape.BuildLaws.{Built, build_balanced_lem}
use plingo.Tape.LeavesLaws.{flat, chunks_lem, AreLeaves, leaves_between_lem, initial_leaves_lem}
use plingo.Tape.Stable.{
  StableTape, tape_entries, is_above, is_below, fits_between, relabel, rekey_between, root_of,
  from_entries,
}

-- The height of a tree built in 64 levels above its leaves.
abbrev pub built_height : ℕ
built_height = 65

and_true : (a b : Bool) → a && b ≡ true → (a ≡ true) × (b ≡ true)
and_true true b h = (refl, h)
and_true false b h = cc

-- The bound above is a label, not the fraction 0.
UpperPositive : Option LeafOrderKey → Type 0
UpperPositive none = Unit
UpperPositive (some upper) = is_positive upper ≡ true

UpperPositive-InOrder :
    (lower upper : Option LeafOrderKey) → InOrder lower upper → UpperPositive upper
unfolding UpperPositive
UpperPositive-InOrder lower none o = tt
UpperPositive-InOrder none (some upper) o = o
UpperPositive-InOrder (some lower) (some upper) o = o.1

Above-is_above :
    (lower : Option LeafOrderKey) (key : LeafOrderKey) → is_above lower key ≡ true → Above lower key
Above-is_above none key h = tt
Above-is_above (some lower) key h = is_lt→lt _ h

Below-is_below :
    (upper : Option LeafOrderKey) (key : LeafOrderKey)
    → UpperPositive upper
    → is_below upper key ≡ true
    → Below upper key
unfolding UpperPositive
Below-is_below none key p h = tt
Below-is_below (some upper) key p h = (is_lt→lt _ h, p)

is_above-Above :
    (lower : Option LeafOrderKey) (key : LeafOrderKey) → Above lower key → is_above lower key ≡ true
is_above-Above none key h = refl
is_above-Above (some lower) key h = ap is_lt h

is_below-Below :
    (upper : Option LeafOrderKey) (key : LeafOrderKey) → Below upper key → is_below upper key ≡ true
is_below-Below none key h = refl
is_below-Below (some upper) key h = ap is_lt h.0

module _ {T : Type 0} ⦃e : TapeEntry T⦄ where
  -- A valid tape with the entries, its labels between the bounds, no higher than `h`.
  abbrev pub IsTape : Option LeafOrderKey → Option LeafOrderKey → ℕ → List T → StableTape T → Type 0
  IsTape lower upper h entries none = entries ≡ []
  IsTape lower upper h entries (some root) = Built lower upper h entries root

  pub IsTape-entries :
      (lower upper : Option LeafOrderKey) (h : ℕ) (x : List T) (t : StableTape T)
      → IsTape lower upper h x t
      → tape_entries t ≡ x
  IsTape-entries lower upper h x none k = sym k
  IsTape-entries lower upper h x (some root) k = k.holds

  pub IsTape-higher :
      (lower upper : Option LeafOrderKey) (g h : ℕ) (x : List T) (t : StableTape T)
      → g ≤ h
      → IsTape lower upper g x t
      → IsTape lower upper h x t
  IsTape-higher lower upper g h x none l k = k
  IsTape-higher lower upper g h x (some root) l k = record {
    valid = k.valid;
    above = k.above;
    below = k.below;
    holds = k.holds;
    high = omega (arith, k.high);
  }

  built_root :
      (lower upper : Option LeafOrderKey) (cs : List (List T))
      (leaves : Allocating (List (TapeNode T)))
      → 0 < length cs
      → length cs ≤ 2 ^ 64
      → Does (length cs) leaves (AreLeaves lower upper cs)
      → Does (length cs + length cs) (root_of leaves) (IsTape lower upper built_height (flat cs))
  built_root lower upper cs leaves pos fits d =
      Does-weaken (length cs + (length cs + 0)) _ _ (omega arith) (
        Does-bind (length cs) (length cs + 0) leaves _ d (λ row r.
          Does-bind (length cs) 0 (build_balanced 64 row) _
            (subst (λ k. Does k (build_balanced 64 row) (Built lower upper built_height (flat cs)))
              r.2
              (subst
                (λ x. Does (length row) (build_balanced 64 row) (Built lower upper built_height x))
                r.1
                (build_balanced_lem 64 lower upper 1 row r.0 (omega (arith, r.2, pos))
                  (omega (arith, r.2, fits)) (omega arith))))
            (λ root b. Does-returns 0 (some root) b)))

  -- A tape of fewer than 2 ^ 63 entries is built with two identities for each entry at most. It is
  -- valid, its leaves labelled in order, holds exactly the entries, and has at most 65 levels.
  pub from_entries_lem :
      (entries : List T)
      → length entries < 2 ^ 63
      → Does (2 * length entries) (from_entries entries) (IsTape none none built_height entries)
  unfolding from_entries
  from_entries_lem [] h = Does-returns 0 none refl
  from_entries_lem (x ∷ entries) h =
      let all = x ∷ entries in
      let total = (length all + (leaf_max - 1)) / leaf_max in
      let (a, j, few, enough) = chunks_lem (length all) all (omega arith) in
      let cs = chunks (length all) all in
      let (w, found, fits) = initial_width_lem 63 0 total (omega (arith, h)) (omega (arith, h)) in
      Does-weaken (length cs + length cs) _ _ (omega (arith, few)) (
        subst
          (λ y.
            Does (length cs + length cs) (root_of (initial_leaves cs 0 total))
              (IsTape none none built_height y))
          j
          (built_root none none cs (initial_leaves cs 0 total) (omega (arith, enough))
            (omega (arith, few, h))
            (initial_leaves_lem cs w 0 total none a found fits (omega (arith, few, enough))
              (λ _. tt))))

  relabel_lem :
      (entries : List T) (lower upper : Option LeafOrderKey)
      → length entries < 2 ^ 63
      → InOrder lower upper
      → Does
          (2 * length entries)
          (relabel entries lower upper)
          (IsTape lower upper built_height entries)
  relabel_lem [] lower upper h o = Does-returns 0 none refl
  relabel_lem (x ∷ entries) lower upper h o =
      let all = x ∷ entries in
      let (a, j, few, enough) = chunks_lem (length all) all (omega arith) in
      let cs = chunks (length all) all in
      Does-weaken (length cs + length cs) _ _ (omega (arith, few)) (
        subst
          (λ y.
            Does (length cs + length cs) (root_of (leaves_between cs lower upper))
              (IsTape lower upper built_height y))
          j
          (built_root lower upper cs (leaves_between cs lower upper) (omega (arith, enough))
            (omega (arith, few, h)) (leaves_between_lem cs lower upper a o)))

  -- A tape whose labels fit is returned as it is.
  pub rekey_between-fits :
      (lower upper : Option LeafOrderKey) (h : ℕ) (x : List T) (t : StableTape T)
      → IsTape lower upper h x t
      → rekey_between t lower upper ≡ returns t
  unfolding rekey_between fits_between
  rekey_between-fits lower upper h x none k = refl
  rekey_between-fits lower upper h x (some root) k =
      rw
        (
          is_above-Above lower (first_order root) k.above,
          is_below-Below upper (last_order root) k.below,
        )
        refl

  IsTape-kept :
      (lower upper : Option LeafOrderKey) (h : ℕ) (x : List T) (t : StableTape T)
      → UpperPositive upper
      → IsTape none none h x t
      → fits_between t lower upper ≡ true
      → IsTape lower upper (max h built_height) x t
  unfolding fits_between
  IsTape-kept lower upper h x none p k f = k
  IsTape-kept lower upper h x (some root) p k f =
      let (a, b) =
        and_true (is_above lower (first_order root)) (is_below upper (last_order root)) f in
      record {
        valid = k.valid;
        above = Above-is_above lower (first_order root) a;
        below = Below-is_below upper (last_order root) p b;
        holds = k.holds;
        high = omega (arith, k.high);
      }

  -- A tape is fitted between two bounds, relabelled where it does not fit: then only its own entries
  -- are visited, with two identities for each at most.
  pub rekey_between_lem :
      (lower upper : Option LeafOrderKey) (h : ℕ) (x : List T) (t : StableTape T)
      → length x < 2 ^ 63
      → InOrder lower upper
      → IsTape none none h x t
      → Does
          (2 * length x)
          (rekey_between t lower upper)
          (IsTape lower upper (max h built_height) x)
  unfolding rekey_between
  rekey_between_lem lower upper h x t small o k = elim (Bool-cases (fits_between t lower upper)) [
    | inl fits ↦
        rw (fits, rekey_between)
          (Does-returns (2 * length x) t
            (IsTape-kept lower upper h x t (UpperPositive-InOrder lower upper o) k fits))
    | inr clash ↦
        rw (clash, IsTape-entries none none h x t k, rekey_between)
          (Does-imp (2 * length x) (relabel x lower upper)
            (λ s b. IsTape-higher lower upper built_height (max h built_height) x s (omega arith) b)
            (relabel_lem x lower upper small o))
  ]
