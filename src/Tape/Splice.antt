-- ===== src/Tape/Splice.antt =====
-- `concat`, `splice` and `push` of src/framework/tape.rs are the operations on lists of entries, and a
-- splice makes nodes for its replacement and the two boundaries only.
use plingo.Prelude.{
  ℕ, suc, ◌+◌, ◌-◌, ◌*◌, ◌^◌, ◌≤◌, ◌<◌, min, max, ◌≡◌, sym, subst, ap, ◌∙◌, List, [], ◌∷◌, ◌++◌,
  Option, none, some, length, length-drop, take, drop, drop-drop, take-min, drop-min, arith,
}
use plingo.Tape.OrderKey.{LeafOrderKey}
use plingo.Tape.Between.{InOrder}
use plingo.Tape.Allocating.{◌>>=◌, Does, Does-bind, Does-weaken, Does-imp}
use plingo.Tape.Metric.{TapeEntry}
use plingo.Tape.Node.{u16_max}
use plingo.Tape.Concat.{concat_nodes}
use plingo.Tape.Stable.{
  StableTape, tape_len, first_order_key, last_order_key, rekey_between, split_at, from_entries,
  concat, splice, push,
}
use plingo.Tape.Fitting.{
  IsTape, IsTape-higher, from_entries_lem, rekey_between_lem, rekey_between-fits, built_height,
}
use plingo.Tape.Ends.{gap-InOrder, follows, ends_below, open_end, lift_lower}
use plingo.Tape.Parts.{split_bound, tape_len_lem, tape_split_at_lem, concat_nodes-IsTape}

InOrder-last : (lower : Option LeafOrderKey) → InOrder lower none
InOrder-last none = tt
InOrder-last (some lower) = tt

-- The identities that a splice takes at most: the replacement counts, the rest of the tape only by
-- its height.
abbrev pub splice_cost : ℕ → ℕ → ℕ → ℕ
splice_cost h g size =
    2 * split_bound h
    + 2 * size
    + 3 * (h + max g built_height)
    + 3 * (suc (max h (max g built_height)) + h)

module _ {T : Type 0} ⦃e : TapeEntry T⦄ where
  -- Two tapes whose labels are in order: nodes are made for each level of either, and none for the
  -- entries.
  pub concat-fits :
      (upper : Option LeafOrderKey) (h g : ℕ) (x y : List T) (l r : StableTape T)
      → h < u16_max
      → g < u16_max
      → IsTape none upper h x l
      → IsTape (last_order_key l) upper g y r
      → IsTape (last_order_key l) none g y r
      → Does (3 * (h + g)) (concat l r) (IsTape none upper (suc (max h g)) (x ++ y))
  unfolding concat
  concat-fits upper h g x y l r p q k j i =
      subst
        (λ m.
          Does (3 * (h + g)) (m >>= λ fitted. concat_nodes l fitted)
            (IsTape none upper (suc (max h g)) (x ++ y)))
        (sym (rekey_between-fits (last_order_key l) none g y r i))
        (concat_nodes-IsTape upper h g x y l r p q k j)

  -- Any two valid tapes below the greatest height, the second with fewer than 2 ^ 63 entries, are
  -- concatenated, whatever their labels: the second is relabelled where its labels do not follow.
  pub concat_lem :
      (h g : ℕ) (x y : List T) (l r : StableTape T)
      → h < u16_max
      → g < u16_max
      → length y < 2 ^ 63
      → IsTape none none h x l
      → IsTape none none g y r
      → Does
          (2 * length y + 3 * (h + max g built_height))
          (concat l r)
          (IsTape none none (suc (max h (max g built_height))) (x ++ y))
  unfolding concat
  concat_lem h g x y l r p q small k j =
      Does-bind (2 * length y) (3 * (h + max g built_height))
        (rekey_between r (last_order_key l) none) (λ fitted. concat_nodes l fitted)
        (rekey_between_lem (last_order_key l) none g y r small (InOrder-last (last_order_key l)) j)
        (λ fitted i.
          concat_nodes-IsTape none h (max g built_height) x y l fitted p (omega arith) k i)

  pub push_lem :
      (h : ℕ) (x : List T) (t : StableTape T) (value : T)
      → h < u16_max
      → IsTape none none h x t
      → Does
          (4 + 3 * (h + built_height))
          (push t value)
          (IsTape none none (suc (max h built_height)) (x ++ (value ∷ [])))
  unfolding push
  push_lem h x t value g k = Does-weaken (2 + (2 + 3 * (h + built_height))) _ _ (omega arith) (
      Does-bind 2 (2 + 3 * (h + built_height)) (from_entries (value ∷ [])) (λ one. concat t one)
        (from_entries_lem (value ∷ []) (omega arith))
        (λ one j. concat_lem h built_height x (value ∷ []) t one g (omega arith) (omega arith) k j))

  -- The last two steps of a splice.
  rejoin :
      (h g : ℕ) (x y z : List T) (front fitted back : StableTape T)
      → suc (max h g) < u16_max
      → IsTape none (first_order_key back) h x front
      → IsTape (last_order_key front) (first_order_key back) g y fitted
      → IsTape none none h z back
      → Does
          (3 * (h + g) + 3 * (suc (max h g) + h))
          (concat front fitted >>= λ joined. concat joined back)
          (IsTape none none (suc (suc (max h g))) ((x ++ y) ++ z))
  rejoin h g x y z front fitted back b k j i =
      Does-bind (3 * (h + g)) (3 * (suc (max h g) + h)) (concat front fitted)
        (λ joined. concat joined back)
        (concat-fits (first_order_key back) h g x y front fitted (omega arith) (omega arith) k j
          (open_end (last_order_key front) (first_order_key back) g y fitted j))
        (λ joined w.
          let after = follows (suc (max h g)) h (x ++ y) z joined back w i in
          Does-imp (3 * (suc (max h g) + h)) (concat joined back)
            (λ t r.
              IsTape-higher none none (suc (max (suc (max h g)) h)) (suc (suc (max h g)))
                ((x ++ y) ++ z) t (omega arith) r)
            (concat-fits none (suc (max h g)) h (x ++ y) z joined back b (omega arith)
              (open_end none (first_order_key back) (suc (max h g)) (x ++ y) joined w) after after))

  -- What follows the two splits.
  replaced :
      (h g : ℕ) (x y : List T) (front back replacement : StableTape T) (start stop : ℕ)
      → suc (max h (max g built_height)) < u16_max
      → length y < 2 ^ 63
      → start ≤ stop
      → IsTape (last_order_key front) none h (drop (stop - start) (drop start x)) back
      → IsTape none (first_order_key back) h (take start x) front
      → IsTape none none g y replacement
      → Does
          (2 * length y
            + (3 * (h + max g built_height) + 3 * (suc (max h (max g built_height)) + h)))
          (rekey_between replacement (last_order_key front) (first_order_key back) >>= λ fitted.
            (concat front fitted >>= λ joined. concat joined back))
          (IsTape none none
            (suc (suc (max h (max g built_height))))
            ((take start x ++ y) ++ drop stop x))
  replaced h g x y front back replacement start stop b small o kb kf j =
      let high = max g built_height in
      let same : drop (stop - start) (drop start x) ≡ drop stop x =
        drop-drop (stop - start) start x ∙ ap (λ n. drop n x) (omega (arith, o)) in
      Does-bind (2 * length y) (3 * (h + high) + 3 * (suc (max h high) + h))
        (rekey_between replacement (last_order_key front) (first_order_key back)) _
        (rekey_between_lem (last_order_key front) (first_order_key back) g y replacement small
          (gap-InOrder h h (take start x) _ front back kf kb) j)
        (λ fitted f.
          subst
            (λ z.
              Does (3 * (h + high) + 3 * (suc (max h high) + h))
                (concat front fitted >>= λ joined. concat joined back)
                (IsTape none none (suc (suc (max h high))) ((take start x ++ y) ++ z)))
            same
            (rejoin h high (take start x) y _ front fitted back b kf f
              (lift_lower (last_order_key front) h _ back kb)))

  -- A splice, its bounds clamped.
  splice_inside :
      (h g : ℕ) (x y : List T) (tape replacement : StableTape T)
      (range_start range_end start stop : ℕ)
      → suc (max h (max g built_height)) < u16_max
      → length y < 2 ^ 63
      → min range_start (tape_len tape) ≡ start
      → max (min range_end (tape_len tape)) start ≡ stop
      → IsTape none none h x tape
      → IsTape none none g y replacement
      → Does (splice_cost h g (length y)) (splice tape range_start range_end replacement) (
          IsTape none none
            (suc (suc (max h (max g built_height))))
            ((take start x ++ y) ++ drop stop x))
  unfolding splice
  splice_inside h g x y tape replacement range_start range_end start stop b small first last k j =
      let size = tape_len_lem none none h x tape k in
      let l : stop ≤ length x = omega (arith, size, first, last) in
      let o : start ≤ stop = omega (arith, last) in
      let high = max g built_height in
      let join = 3 * (h + high) + 3 * (suc (max h high) + h) in
      rw (first, last, splice)
        (Does-weaken (split_bound h + (split_bound h + (2 * length y + join))) _ _ (omega arith) (
          Does-bind (split_bound h) (split_bound h + (2 * length y + join)) (split_at tape start) _
            (tape_split_at_lem none h x tape start (omega (arith, b)) (omega (arith, o, l)) k)
            (λ parts (front, remainder, same, kf, kr, _). rw same (
              Does-bind (split_bound h) (2 * length y + join) (split_at remainder (stop - start)) _
                (tape_split_at_lem (last_order_key front) h (drop start x) remainder (stop - start)
                  (omega (arith, b)) (omega (arith, length-drop start x, l)) kr)
                (λ others (removed, back, same2, _, _, kb). rw same2 (
                  replaced h g x y front back replacement start stop b small o kb
                    (ends_below (first_order_key remainder) h h (take start x) _ front back kf kb)
                    j))))))

  -- Between tapes below the greatest height, the replacement with fewer than 2 ^ 63 entries, a splice
  -- replaces the entries of a range, whose bounds are clamped to the tape. It takes at most
  -- `splice_cost` identities, which count the entries of the replacement but not those of the tape.
  pub tape_splice_lem :
      (h g : ℕ) (x y : List T) (tape replacement : StableTape T) (start stop : ℕ)
      → suc (max h (max g built_height)) < u16_max
      → length y < 2 ^ 63
      → IsTape none none h x tape
      → IsTape none none g y replacement
      → Does (splice_cost h g (length y)) (splice tape start stop replacement) (
          IsTape none none
            (suc (suc (max h (max g built_height))))
            ((take start x ++ y) ++ drop (max start stop) x))
  tape_splice_lem h g x y tape replacement start stop b small k j =
      let size = tape_len_lem none none h x tape k in
      let first = min start (length x) in
      let last = max (min stop (length x)) first in
      let back : drop last x ≡ drop (max start stop) x =
        ap (λ n. drop n x) {x = last} {y = min (max start stop) (length x)} (omega arith)
        ∙ drop-min (max start stop) x in
      subst
        (λ z.
          Does (splice_cost h g (length y)) (splice tape start stop replacement)
            (IsTape none none (suc (suc (max h (max g built_height)))) ((take start x ++ y) ++ z)))
        back
        (subst
          (λ w.
            Does (splice_cost h g (length y)) (splice tape start stop replacement)
              (IsTape none none (suc (suc (max h (max g built_height)))) ((w ++ y) ++ drop last x)))
          (take-min start x)
          (splice_inside h g x y tape replacement start stop first last b small
            (ap (min start) size) (ap (λ n. max (min stop n) first) size) k j))
