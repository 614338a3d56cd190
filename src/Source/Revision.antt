-- ===== src/Source/Revision.antt =====
-- The fold of one document's commands into revisions: `source_document` and `fnv1a_uri` of
-- src/framework/source.rs. Texts are those of a rope type, of which only the byte length is read.
use plingo.Prelude.{
  ℕ, ◌+◌, ◌*◌, ◌%◌, ◌^◌, ◌≡◌, refl, sym, subst, ap, ◌∙◌, ◌⊎◌, Bool, true, false, ◌&&◌, ◌==◌,
  if◌then◌else◌, Option, none, some, List, [], ◌∷◌, arith, Bool-cases, inl, inr,
}
use Prim.Native.Nat.{bit_xor}
use plingo.Source.Coordinates.{SourceSplice, SourceCoordinateMap, build}

-- FNV-1a over the bytes of the URI, on 64 bits.
pub fnv1a_from : ℕ → List ℕ → ℕ
fnv1a_from hash [] = hash
fnv1a_from hash (byte ∷ bytes) =
    fnv1a_from ((bit_xor hash byte * 0x0000_0100_0000_01b3) % 2 ^ 64) bytes

unfoldable pub fnv1a_uri : List ℕ → ℕ
unfolding fnv1a_from
fnv1a_uri = fnv1a_from 0xcbf2_9ce4_8422_2325

pub record DocumentIdentity : Type 0 where
  pub id : ℕ
  pub uri : List ℕ

pub data SourceDelta : Type 0 where
  load : ℕ → SourceDelta
  edit : List SourceSplice → SourceDelta

pub record SourceRevision (Text : Type 0) : Type 0 where
  pub document : DocumentIdentity
  pub id : ℕ
  pub previous : Option ℕ
  pub text : Text
  pub delta : SourceDelta
  pub coordinates : SourceCoordinateMap

pub record SourceCommand (Text : Type 0) : Type 0 where
  pub fresh_document_id : Option ℕ
  pub base : Option (ℕ × ℕ)
  pub delta : SourceDelta
  pub next_text : Text

-- What the fold does: it removes the entry, it publishes a revision, or it returns the error of a stale
-- command.
pub data Folded (Text : Type 0) : Type 0 where
  retracted : Folded Text
  published : SourceRevision Text → Folded Text
  stale : Folded Text

abbrev pub base_eq : Option (ℕ × ℕ) → Option (ℕ × ℕ) → Bool
base_eq none none = true
base_eq none (some b) = false
base_eq (some a) none = false
base_eq (some (d, r)) (some (e, s)) = d == e && r == s

abbrev pub no_coordinates : SourceCoordinateMap
no_coordinates = record { islands = []; old_starts = []; new_starts = [] }

module _ {Text : Type 0} (len_bytes : Text → ℕ) where
  abbrev pub expected_base : Option (SourceRevision Text) → Option (ℕ × ℕ)
  expected_base none = none
  expected_base (some p) = some (p.document.id, p.id)

  -- A first open takes the fresh id of the workspace, or the one derived from the URI.
  abbrev pub document_identity :
      List ℕ → Option (SourceRevision Text) → SourceCommand Text → DocumentIdentity
  document_identity uri (some p) command = p.document
  document_identity uri none command = elim command.fresh_document_id [
    | none ↦ record { id = fnv1a_uri uri; uri = uri }
    | some fresh ↦ record { id = fresh; uri = uri }
  ]

  -- The addition is unchecked: it wraps in a release build.
  abbrev pub next_revision_id : Option (SourceRevision Text) → ℕ
  next_revision_id none = 1
  next_revision_id (some p) = (p.id + 1) % 2 ^ 64

  abbrev pub old_len : Option (SourceRevision Text) → ℕ
  old_len none = 0
  old_len (some p) = len_bytes p.text

  abbrev pub next_coordinates : Option (SourceRevision Text) → SourceDelta → SourceCoordinateMap
  next_coordinates previous (load new_len) = no_coordinates
  next_coordinates previous (edit splices) = build (old_len previous) splices

  abbrev pub previous_id : Option (SourceRevision Text) → Option ℕ
  previous_id none = none
  previous_id (some p) = some p.id

  abbrev pub next_revision :
      List ℕ → Option (SourceRevision Text) → SourceCommand Text → SourceRevision Text
  next_revision uri previous command = record {
    document = document_identity uri previous command;
    id = next_revision_id previous;
    previous = previous_id previous;
    text = command.next_text;
    delta = command.delta;
    coordinates = next_coordinates previous command.delta;
  }

  unfoldable pub source_document :
      List ℕ → Option (SourceRevision Text) → Option (SourceCommand Text) → Folded Text
  source_document uri previous none = retracted
  source_document uri previous (some command) =
      if base_eq command.base (expected_base previous)
      then published (next_revision uri previous command)
      else stale

  base_eq→eq : (a b : Option (ℕ × ℕ)) → base_eq a b ≡ true → a ≡ b
  base_eq→eq none none h = refl
  base_eq→eq none (some b) h = cc
  base_eq→eq (some a) none h = cc
  base_eq→eq (some (d, r)) (some (e, s)) h = ground arith

  pub published_next :
      (uri : List ℕ) (previous : Option (SourceRevision Text)) (c : SourceCommand Text)
      (r : SourceRevision Text)
      → source_document uri previous (some c) ≡ published r
      → next_revision uri previous c ≡ r
  unfolding source_document
  published_next uri previous c r h = elim (Bool-cases (base_eq c.base (expected_base previous))) [
    | inl e ↦
        let same : published (next_revision uri previous c) ≡ published r = sym (rw e refl) ∙ h in
        cc
    | inr e ↦ let other : stale ≡ published r = sym (rw e refl) ∙ h in cc
  ]

  base_eq_refl : (a : Option (ℕ × ℕ)) → base_eq a a ≡ true
  base_eq_refl none = refl
  base_eq_refl (some (d, r)) = ground arith

  -- The base of a revision is not that of the one it was made from.
  next_base :
      (uri : List ℕ) (previous : Option (SourceRevision Text)) (c : SourceCommand Text)
      → c.base ≡ expected_base previous
      → base_eq c.base (expected_base (some (next_revision uri previous c))) ≡ false
  next_base uri none c e = rw e refl
  next_base uri (some p) c e =
      subst (λ base. base_eq base (expected_base (some (next_revision uri (some p) c))) ≡ false)
        (sym e) (wrapped p.document.id p.id)
    where
      wrapped : (d i : ℕ) → base_eq (some (d, i)) (some (d, (i + 1) % 2 ^ 64)) ≡ false
      wrapped d i =
          let other : ¬ (i ≡ (i + 1) % 2 ^ 64) = λ h. omega (arith, h) in ground (arith, other)

  -- A command is published where its base is the committed revision, or where it has none and none is
  -- committed, and folding it at once into the revision that it made is refused as stale; with any
  -- other base it is itself refused as stale.
  pub source_document_once :
      (uri : List ℕ) (previous : Option (SourceRevision Text)) (c : SourceCommand Text)
      → ((c.base ≡ expected_base previous)
          × ((r : SourceRevision Text) × (source_document uri previous (some c) ≡ published r)
              × (r.text ≡ c.next_text)
              × (source_document uri (some r) (some c) ≡ stale)))
        ⊎ ((¬ (c.base ≡ expected_base previous)) × (source_document uri previous (some c) ≡ stale))
  unfolding source_document
  source_document_once uri previous c =
      elim (Bool-cases (base_eq c.base (expected_base previous))) [
        | inl e ↦
            let same = base_eq→eq c.base (expected_base previous) e in
            inl (
              same,
              (
                next_revision uri previous c,
                rw e refl,
                refl,
                rw (next_base uri previous c same) refl,
              ),
            )
        | inr e ↦ inr (
          λ same.
              let both : true ≡ false = sym (base_eq_refl c.base) ∙ ap (base_eq c.base) same ∙ e in
              cc,
          rw e refl,
        )
      ]
