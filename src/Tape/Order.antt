-- ===== src/Tape/Order.antt =====
-- The order of leaf labels of src/framework/tape.rs is strict.
use plingo.Prelude.{◌≡◌, subst, sym, ◌⊎◌, inl, inr, [], ◌∷◌, arith}
use plingo.Tape.OrderKey.{LeafOrderKey, cmp}
use plingo.Tape.Between.{◌≺◌}

pub ≺_trans : (a b c : LeafOrderKey) → a ≺ b → b ≺ c → a ≺ c
unfolding cmp
≺_trans [] [] c h k = cc
≺_trans [] (y ∷ b) [] h k = ground (arith, ≺_trans [] b [])
≺_trans [] (y ∷ b) (z ∷ c) h k = ground (arith, ≺_trans [] b c)
≺_trans (x ∷ a) [] [] h k = cc
≺_trans (x ∷ a) [] (z ∷ c) h k = ground (arith, ≺_trans a [] c)
≺_trans (x ∷ a) (y ∷ b) [] h k = ground (arith, ≺_trans a b [])
≺_trans (x ∷ a) (y ∷ b) (z ∷ c) h k = ground (arith, ≺_trans a b c)

infix 50 ◌≼◌
abbrev pub ◌≼◌ : LeafOrderKey → LeafOrderKey → Type 0
a ≼ b = (a ≺ b) ⊎ (a ≡ b)

pub ≼_then_≺ : (a b c : LeafOrderKey) → a ≼ b → b ≺ c → a ≺ c
≼_then_≺ a b c (inl h) k = ≺_trans a b c h k
≼_then_≺ a b c (inr h) k = subst (λ x. x ≺ c) (sym h) k

pub ≺_then_≼ : (a b c : LeafOrderKey) → a ≺ b → b ≼ c → a ≺ c
≺_then_≼ a b c h (inl k) = ≺_trans a b c h k
≺_then_≼ a b c h (inr k) = subst (λ x. a ≺ x) k h
