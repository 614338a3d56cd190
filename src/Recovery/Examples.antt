-- ===== src/Recovery/Examples.antt =====
-- The theorems about the search for repairs at concrete configurations.
use plingo.Prelude.{ℕ, ◌≡◌, refl, true, false, some, List, [], ◌∷◌, map}
use plingo.Grammar.Symbols.{TerminalId}
use plingo.Recovery.Score.{
  insert, delete, shift, SearchScore, SearchRecord, record_dominates, repair_rank, repairs_better,
}
use plingo.Recovery.ScoreLaws.{repairs_better_total}
use plingo.Recovery.Queue.{SearchConfig, key, search_record, no_search, push_all}
use plingo.Recovery.QueueLaws.{push_all_best}

abbrev comma : TerminalId
comma = record { state_key = 1 ∷ []; token_id = 4 }

abbrev semicolon : TerminalId
semicolon = record { state_key = 1 ∷ []; token_id = 5 }

-- A score with deletions and insertions only.
abbrev edits : ℕ → ℕ → SearchScore
edits deletes inserts = record {
  deletes = deletes;
  error_shifts = 0;
  shifts = 0;
  inserts = inserts;
}

abbrev scored : ℕ → ℕ → ℕ → SearchRecord
scored cost deletes inserts = record { cost = cost; score = edits deletes inserts }

cheaper : record_dominates (scored 1 0 1) (scored 1 1 0) ≡ true
unfolding record_dominates
cheaper = refl

dearer : record_dominates (scored 1 1 0) (scored 2 0 2) ≡ true
unfolding record_dominates
dearer = refl

undominated : record_dominates (scored 2 1 1) (scored 2 1 1) ≡ false
unfolding record_dominates
undominated = refl

not_better : repairs_better (insert comma ∷ shift ∷ []) (insert semicolon ∷ shift ∷ []) ≡ false
unfolding repairs_better
not_better = refl

nor_better : repairs_better (insert semicolon ∷ shift ∷ []) (insert comma ∷ shift ∷ []) ≡ false
unfolding repairs_better
nor_better = refl

repairs_better_total_example :
    map repair_rank (insert comma ∷ shift ∷ []) ≡ map repair_rank (insert semicolon ∷ shift ∷ [])
repairs_better_total_example =
    repairs_better_total (insert comma ∷ shift ∷ []) (insert semicolon ∷ shift ∷ []) not_better
      nor_better

abbrev deleted : SearchConfig
deleted = record { stack = 0 ∷ 3 ∷ []; input = 1; repairs = delete ∷ []; score = edits 1 0 }

abbrev inserted : SearchConfig
inserted = record { stack = 0 ∷ 3 ∷ []; input = 1; repairs = insert comma ∷ []; score = edits 0 1 }

abbrev pushes : List (SearchConfig × ℕ)
pushes = (deleted, 1) ∷ (inserted, 1) ∷ (deleted, 2) ∷ []

push_all_best_example :
    (best : SearchRecord) × ((push_all no_search pushes).best_seen (key deleted) ≡ some best)
    × (record_dominates (search_record deleted 1) best ≡ false)
push_all_best_example = push_all_best no_search pushes 0 deleted 1 refl
