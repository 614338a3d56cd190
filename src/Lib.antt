-- ===== src/Lib.antt =====
-- A model of parts of plingo, an incremental lexing and parsing framework, and the theorems about
-- it.
--
-- utils/persistent_seq.rs, the persistent rope that the parser keeps its columns in, is modelled
-- under Seq: Measure (the traits SeqMeasure and SeqMeasureWeight), Node (Node and its cached
-- fields), Join (join, join_options, append_node), Split (split_node), Build (chunks and
-- build_balanced), Access (weighted_get_node, measure_after_node, replace_node), Iter (the frame
-- stack of Iter) and Sequence (PersistentSeq and its methods, under the source's names; `len`,
-- `get`, `measure` and `eq` are seq_len, seq_get, seq_measure and seq_eq). Edits and Reads hold the
-- theorems, which refine a sequence to the list of its values.
--
-- The ranges and spans of utils.rs are modelled under Span: Range (RangeOrPoint and RangeExt),
-- Located (Span), with the theorems in Bytes, which read a range as a set of byte positions, and
-- LocatedLaws.
--
-- Revisions of a document (framework/source.rs) are modelled under Source: Coordinates
-- (SourceSplice, SourceCoordinateMap::build and map_old_to_new), Text (what splices mean for a list
-- of bytes), Rope (apply_splices), Normalize (normalize_edits from the replacements on, with
-- theorems in NormalizeLaws and NormalizeText) and Revision (source_document with its types, its
-- three outcomes as values of Folded: the engine that calls it, with what it does to the entry on
-- an error, is not modelled). The revision number is a u64 to which the source adds 1 unchecked;
-- the model wraps it, as a release build does, where a debug build panics. Mapping holds the
-- theorems about the coordinate map, Published the one about the map of a published revision. The
-- rope of the crate ropey is the parameter RopeApi: the calls that the source makes and what their
-- documentation says of them. The slices that normalize_edits compares are a parameter too, which
-- may fail: the source takes them by char indices out of byte offsets, so that ropey panics where
-- they run past the characters of a text with characters of several bytes. The theorems on
-- normalize_edits ask that the slices inside the text are in bounds, the one on the meaning of the
-- splices also that they are the bytes of the range, as for a text of single-byte characters. An
-- error and such a panic are both `none`.
--
-- The stable tape (framework/tape.rs), the ordered sequence of the lexer and the parser, is
-- modelled under Tape. OrderKey is LeafOrderKey, with its theorem in Between; Allocator is
-- TapeIdAllocator, and Allocating the code that takes it as `&mut`: a function from the allocator
-- to a result and the allocator after it, or `none` where it panics. `Does k` says that such code
-- returns wherever there is room for k identities, and takes no more. Metric, Node (TapeNode with
-- its cached fields), Concat (rebalance, concat_nodes), Split (split_node), Build
-- (LeafOrderKey::initial, chunks and build_balanced), Search (the descents), Stable (StableTape and
-- its methods), Occurrence (locations and the rank of an identity; the persistent index is a
-- function), Iter, Cursor and ExactEq (which takes the comparison of pointers and of entries as
-- parameters) follow the source. The theorems are in Joined, Rotations, RebalanceLaws, Attach,
-- ConcatLaws, SplitLaws and SplitNode for nodes, InitialLaws, BuildLaws, LeavesLaws, Levels and
-- Fitting for construction and relabelling, Parts, Ends and Splice for whole tapes, and SearchLaws,
-- ByteRank, OccurrenceLaws, Locations, IterLaws, RangeLaws, CursorLaws and CursorMoves for reads.
-- They refine a tape to the list of its entries. Pointers leave no trace, so the methods that
-- compare or count them are not modelled. The search for a label takes fuel, one unit for each
-- precision that it tries; the loop of LeafOrderKey::initial 64 units, one for each bit of a usize;
-- build_balanced 64, one for each level, since a Vec has fewer than 2 ^ 64 elements; the iterator
-- one for each turn. The u16 height saturates in the model too, and the theorems ask for heights
-- below 65,535. Counts and bytes of metrics are of what is in memory, so their checked sums do not
-- overflow.
--
-- The analysis of a grammar (framework/parse/analyze.rs, over framework/parse/grammar.rs) is
-- modelled under Grammar: Symbols (the grammar as the analysis reads it, and derivations of the
-- empty string), Nullable (compute_nullable_sets) and First (the FIRST sets and first_of_sequence,
-- and derivations of a first terminal). NullableLaws, FirstExtend, FirstLaws and FirstSets hold the
-- theorems. The theorems ask that every production's slice and non-terminals are in range and its
-- terminals registered, as GrammarBuilder and sort_productions_by_lhs are meant to leave it. The
-- fuel of the nullable loop is one turn more than there are non-terminals, that of the FIRST loop
-- one more than there are bits, since each turn but the last sets a bit.
--
-- The search for repairs (framework/parse/recovery.rs) is modelled under Recovery, but for its
-- loop: Score (SearchScore, SearchRecord and their `dominates`, repairs_better) with the theorems
-- in ScoreLaws, Queue (push_config, and any run of calls of it as push_all, which stands for no one
-- loop of the source) with those in QueueLaws, Closure (compute_closed_stacks, over the actions of
-- framework/parse/build.rs) and Neighbours (the configurations pushed from one). The heap is the
-- list of its items, and the map of best records is a function. The closure takes fuel, one unit
-- for each stack taken from its queue; how much is enough depends on the tables and is left to the
-- caller.
--
-- The stack of lexer states (framework/lex/mode.rs) is modelled in Lex/Mode.
--
-- Conventions. `Arc` sharing leaves no trace, since nodes are immutable. Lengths, indices and
-- offsets (usize) are natural numbers: they count values in memory, so their sums do not overflow;
-- where the source saturates (the u8 height of a node, usize::MAX in a span) the model does too. A
-- method that asserts its arguments returns `none` where the assertion fails. The loops of the
-- iterator and of build_balanced take fuel: one unit for each turn, and one for each node. The
-- slice of a leaf by an inverted range in locations_in_range panics, which is `none` too. The URI
-- type of fluent_uri and its equality are parameters.
--
-- Not modelled: splice_with_index of the tape, the reactive engine, the lexer's scanning, the
-- procedural macros, GrammarBuilder, the construction of the automaton, the loop of the recovery
-- search, and the incremental sessions.

pub mod Prelude
pub mod Seq
pub mod Span
pub mod Source
pub mod Tape
pub mod Grammar
pub mod Recovery
pub mod Lex
