-- ===== src/Recovery/QueueLaws.antt =====
-- The best records of src/framework/parse/recovery.rs after any pushes.
use plingo.Prelude.{
  ℕ, zero, suc, ◌≡◌, refl, sym, ap, ap₂, subst, ◌∙◌, true, false, Option, none, some, List, [], ◌∷◌,
  get_elem?, arith, inl, inr, Bool-cases,
}
use plingo.Recovery.Score.{SearchRecord, record_dominates}
use plingo.Recovery.ScoreLaws.{record_dominates_chain, record_dominates_asym}
use plingo.Recovery.Queue.{
  SearchConfig, SearchKey, Search, stack_eq, key_eq, key, search_record, refused, push_config,
  push_all,
}

stack_eq→eq : (a b : List ℕ) → stack_eq a b ≡ true → a ≡ b
stack_eq→eq [] [] e = refl
stack_eq→eq [] (y ∷ b) e = cc
stack_eq→eq (x ∷ a) [] e = cc
stack_eq→eq (x ∷ a) (y ∷ b) e = ap₂ ◌∷◌ (ground arith) (stack_eq→eq a b (ground arith))

key_eq→eq : (a b : SearchKey) → key_eq a b ≡ true → a ≡ b
key_eq→eq a b e =
    ap₂ (λ s i. record { stack = s; input = i }) (stack_eq→eq a.stack b.stack (ground arith))
      (ground arith)

stack_eq_refl : (a : List ℕ) → stack_eq a a ≡ true
stack_eq_refl [] = refl
stack_eq_refl (x ∷ a) = ground (arith, stack_eq_refl a)

record_dominates_irrefl : (r : SearchRecord) → record_dominates r r ≡ false
record_dominates_irrefl r = elim (Bool-cases (record_dominates r r)) [
  | inl e ↦ record_dominates_asym r r e
  | inr e ↦ e
]

-- A record of a key is replaced only by one that nothing new dominates.
abbrev Improves : Option SearchRecord → SearchRecord → Type 0
Improves found best =
    (later : SearchRecord) × (found ≡ some later)
    × ((r : SearchRecord) → record_dominates r best ≡ false → record_dominates r later ≡ false)

record_of_refused :
    (found : Option SearchRecord) (r : SearchRecord)
    → refused found r ≡ true
    → (best : SearchRecord) × (found ≡ some best) × (record_dominates r best ≡ false)
record_of_refused none r e = cc
record_of_refused (some best) r e = (best, refl, ground arith)

dominates_accepted :
    (best r : SearchRecord) → refused (some best) r ≡ false → record_dominates r best ≡ true
dominates_accepted best r e = ground arith

push_config-Improves :
    (s : Search) (config : SearchConfig) (cost : ℕ) (k : SearchKey) (best : SearchRecord)
    → s.best_seen k ≡ some best
    → Improves ((push_config s config cost).best_seen k) best
unfolding push_config
push_config-Improves s config cost k best e =
    let new : SearchRecord = search_record config cost in
    elim (Bool-cases (refused (s.best_seen (key config)) new)) [
      | inl kept ↦ rw kept (best, e, λ r h. h)
      | inr taken ↦ elim (Bool-cases (key_eq k (key config))) [
        | inl q ↦
            let here : s.best_seen (key config) ≡ some best =
              ap s.best_seen (sym (key_eq→eq k (key config) q)) ∙ e in
            let better =
              dominates_accepted best new (subst (λ o. refused o new ≡ false) here taken) in
            (new, rw (taken, q) refl, λ r h. record_dominates_chain r best new better h)
        | inr q ↦ (best, rw (taken, q) e, λ r h. h)
      ]
    ]

push_all-Improves :
    (pushes : List (SearchConfig × ℕ)) (s : Search) (k : SearchKey) (best : SearchRecord)
    → s.best_seen k ≡ some best
    → Improves ((push_all s pushes).best_seen k) best
unfolding push_all
push_all-Improves [] s k best e = (best, e, λ r h. h)
push_all-Improves ((config, cost) ∷ pushes) s k best e =
    let (b1, e1, f1) = push_config-Improves s config cost k best e in
    let (b2, e2, f2) = push_all-Improves pushes (push_config s config cost) k b1 e1 in
    (b2, e2, λ r h. f2 r (f1 r h))

key_eq_refl : (k : SearchKey) → key_eq k k ≡ true
key_eq_refl k = ground (arith, stack_eq_refl k.stack)

-- The record of the key of a configuration that was just pushed.
push_config_seen :
    (s : Search) (config : SearchConfig) (cost : ℕ)
    → (best : SearchRecord) × ((push_config s config cost).best_seen (key config) ≡ some best)
      × (record_dominates (search_record config cost) best ≡ false)
unfolding push_config
push_config_seen s config cost =
    let new : SearchRecord = search_record config cost in
    elim (Bool-cases (refused (s.best_seen (key config)) new)) [
      | inl kept ↦ rw kept (record_of_refused (s.best_seen (key config)) new kept)
      | inr taken ↦ (new, rw (taken, key_eq_refl (key config)) refl, record_dominates_irrefl new)
    ]

-- After any pushes there is a record for the stack and input of each configuration pushed, and the
-- configuration's own record does not dominate it.
pub push_all_best :
    (s : Search) (pushes : List (SearchConfig × ℕ)) (i : ℕ) (config : SearchConfig) (cost : ℕ)
    → get_elem? pushes i ≡ some (config, cost)
    → (best : SearchRecord) × ((push_all s pushes).best_seen (key config) ≡ some best)
      × (record_dominates (search_record config cost) best ≡ false)
unfolding push_all
push_all_best s [] i config cost e = cc
push_all_best s ((c, n) ∷ pushes) zero config cost e =
    let same : c ≡ config = cc in
    let same_cost : n ≡ cost = cc in
    let (b1, e1, f1) = push_config_seen s c n in
    let (b2, e2, f2) = push_all-Improves pushes (push_config s c n) (key c) b1 e1 in
    subst
      (λ (p : SearchConfig × ℕ).
        (best : SearchRecord) × ((push_all (push_config s c n) pushes).best_seen (key p.0)
          ≡ some best)
        × (record_dominates (search_record p.0 p.1) best ≡ false))
      (ap₂ (λ x y. (x, y)) same same_cost) (b2, e2, f2 (search_record c n) f1)
push_all_best s ((c, n) ∷ pushes) (suc i) config cost e =
    push_all_best (push_config s c n) pushes i config cost e
