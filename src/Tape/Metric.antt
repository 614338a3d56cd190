-- ===== src/Tape/Metric.antt =====
-- `SequenceMetric` and `TapeEntry` of src/framework/tape.rs. The counts and byte lengths are of what is
-- in memory, so their checked sums do not overflow.
use plingo.Prelude.{ℕ, ◌+◌, ◌-◌, ◌*◌, ◌/◌, ◌%◌, ◌^◌, List, [], ◌∷◌}
use Prim.Native.Nat.{bit_xor}

-- `u64::rotate_left`
abbrev pub rotate_left : ℕ → ℕ → ℕ
rotate_left value by = value * 2 ^ by % 2 ^ 64 + value / 2 ^ (64 - by)

-- `value ^ (value >> by)`
abbrev pub xor_shift : ℕ → ℕ → ℕ
xor_shift value by = bit_xor value (value / 2 ^ by)

abbrev pub wrapping_mul : ℕ → ℕ → ℕ
wrapping_mul a b = a * b % 2 ^ 64

-- `ExactHashPrefilter::combine`
unfoldable pub combine : ℕ → ℕ → ℕ → ℕ
combine left right left_len =
    let mixed = bit_xor (bit_xor left (rotate_left right 23)) (rotate_left left_len 41) in
    let once = wrapping_mul (xor_shift mixed 30) 0xbf58_476d_1ce4_e5b9 in
    let twice = wrapping_mul (xor_shift once 27) 0x94d0_49bb_1331_11eb in xor_shift twice 31

pub record SequenceMetric : Type 0 where
  pub lexical_count : ℕ
  pub semantic_count : ℕ
  pub source_bytes : ℕ
  pub structural_hash : ℕ

abbrev pub no_metric : SequenceMetric
no_metric = record { lexical_count = 0; semantic_count = 0; source_bytes = 0; structural_hash = 0 }

abbrev pub lexical : ℕ → ℕ → SequenceMetric
lexical bytes hash = record {
  lexical_count = 1;
  semantic_count = 0;
  source_bytes = bytes;
  structural_hash = hash;
}

abbrev pub semantic : ℕ → ℕ → SequenceMetric
semantic bytes hash = record {
  lexical_count = 1;
  semantic_count = 1;
  source_bytes = bytes;
  structural_hash = hash;
}

-- `TapeMetric::add`
abbrev pub add : SequenceMetric → SequenceMetric → SequenceMetric
add a b = record {
  lexical_count = a.lexical_count + b.lexical_count;
  semantic_count = a.semantic_count + b.semantic_count;
  source_bytes = a.source_bytes + b.source_bytes;
  structural_hash = combine a.structural_hash b.structural_hash a.lexical_count;
}

pub record TapeEntry (T : Type 0) : Type 0 where
  pub stable_id : T → ℕ
  pub metric : T → SequenceMetric

module _ {T : Type 0} ⦃e : TapeEntry T⦄ where
  -- `fold`, from the metric so far.
  abbrev pub fold_metric : SequenceMetric → List T → SequenceMetric
  fold_metric m [] = m
  fold_metric m (x ∷ entries) = fold_metric (add m (e.metric x)) entries

  abbrev pub metric_of : List T → SequenceMetric
  metric_of = fold_metric no_metric

-- `TapeEntry for usize`
instance abbrev pub usize_entry : TapeEntry ℕ
usize_entry = record { stable_id = λ n. n; metric = λ n. lexical 1 n }
