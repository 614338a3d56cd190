-- ===== src/Recovery/Queue.antt =====
-- `push_config` of src/framework/parse/recovery.rs: the queue of the search and the best record that
-- each stack and input position has been reached with.
use plingo.Prelude.{
  ℕ, ◌+◌, Bool, true, false, not, ◌&&◌, ◌==◌, if◌then◌else◌, Option, none, some, List, [], ◌∷◌,
}
use plingo.Recovery.Score.{Repair, SearchScore, SearchRecord, record_dominates}

pub record SearchConfig : Type 0 where
  pub stack : List ℕ
  pub input : ℕ
  pub repairs : List Repair
  pub score : SearchScore

pub record SearchKey : Type 0 where
  pub stack : List ℕ
  pub input : ℕ

pub record QueueItem : Type 0 where
  pub cost : ℕ
  pub order : ℕ
  pub config : SearchConfig

-- The three values that the search updates; the heap as the list of its items, the last pushed first.
pub record Search : Type 0 where
  pub queue : List QueueItem
  pub best_seen : SearchKey → Option SearchRecord
  pub enqueue_order : ℕ

abbrev pub stack_eq : List ℕ → List ℕ → Bool
stack_eq [] [] = true
stack_eq [] (y ∷ ys) = false
stack_eq (x ∷ xs) [] = false
stack_eq (x ∷ xs) (y ∷ ys) = x == y && stack_eq xs ys

abbrev pub key_eq : SearchKey → SearchKey → Bool
key_eq a b = stack_eq a.stack b.stack && a.input == b.input

abbrev pub key : SearchConfig → SearchKey
key config = record { stack = config.stack; input = config.input }

abbrev pub search_record : SearchConfig → ℕ → SearchRecord
search_record config cost = record { cost = cost; score = config.score }

-- `is_some_and(|best| !record.dominates(*best))`
abbrev pub refused : Option SearchRecord → SearchRecord → Bool
refused none r = false
refused (some best) r = not (record_dominates r best)

abbrev pub insert_best :
    (SearchKey → Option SearchRecord) → SearchKey → SearchRecord → SearchKey → Option SearchRecord
insert_best best_seen k r other = if key_eq other k then some r else best_seen other

abbrev pub enqueued : Search → SearchConfig → ℕ → Search
enqueued s config cost = record {
  queue = record { cost = cost; order = s.enqueue_order; config = config } ∷ s.queue;
  best_seen = insert_best s.best_seen (key config) (search_record config cost);
  enqueue_order = s.enqueue_order + 1;
}

unfoldable pub push_config : Search → SearchConfig → ℕ → Search
push_config s config cost =
    if refused (s.best_seen (key config)) (search_record config cost)
    then s
    else enqueued s config cost

abbrev pub no_search : Search
no_search = record { queue = []; best_seen = λ k. none; enqueue_order = 0 }

-- Any run of calls of `push_config`, each with its configuration and cost.
unfoldable pub push_all : Search → List (SearchConfig × ℕ) → Search
unfolding push_config
push_all s [] = s
push_all s ((config, cost) ∷ pushes) = push_all (push_config s config cost) pushes
