-- ===== src/Tape/Ends.antt =====
-- What the labels at the ends of two neighbouring tapes of src/framework/tape.rs say of each other.
use plingo.Prelude.{Option, none, some, ℕ, List}
use plingo.Tape.OrderKey.{LeafOrderKey}
use plingo.Tape.Between.{InOrder}
use plingo.Tape.Metric.{TapeEntry}
use plingo.Tape.SplitLaws.{first_positive}
use plingo.Tape.Stable.{StableTape, first_order_key, last_order_key}
use plingo.Tape.Fitting.{IsTape}

module _ {T : Type 0} ⦃e : TapeEntry T⦄ where
  -- The bounds that a replacement is fitted between are in order.
  pub gap-InOrder :
      (h g : ℕ) (x y : List T) (front back : StableTape T)
      → IsTape none (first_order_key back) h x front
      → IsTape (last_order_key front) none g y back
      → InOrder (last_order_key front) (first_order_key back)
  gap-InOrder h g x y none none k j = tt
  gap-InOrder h g x y none (some b) k j = first_positive b j.valid
  gap-InOrder h g x y (some a) none k j = tt
  gap-InOrder h g x y (some a) (some b) k j = k.below

  -- A tape that ends below the first label of another can be followed by it.
  pub follows :
      (h g : ℕ) (x y : List T) (joined back : StableTape T)
      → IsTape none (first_order_key back) h x joined
      → IsTape none none g y back
      → IsTape (last_order_key joined) none g y back
  follows h g x y joined none k j = j
  follows h g x y none (some b) k j = j
  follows h g x y (some a) (some b) k j = record {
    valid = j.valid;
    above = k.below.0;
    below = tt;
    holds = j.holds;
    high = j.high;
  }

  pub ends_below :
      (upper : Option LeafOrderKey) (h g : ℕ) (x y : List T) (front back : StableTape T)
      → IsTape none upper h x front
      → IsTape (last_order_key front) none g y back
      → IsTape none (first_order_key back) h x front
  ends_below upper h g x y none back k j = k
  ends_below upper h g x y (some a) none k j = record {
    valid = k.valid;
    above = tt;
    below = tt;
    holds = k.holds;
    high = k.high;
  }
  ends_below upper h g x y (some a) (some b) k j = record {
    valid = k.valid;
    above = tt;
    below = (j.above, first_positive b j.valid);
    holds = k.holds;
    high = k.high;
  }

  pub open_end :
      (lower upper : Option LeafOrderKey) (h : ℕ) (x : List T) (t : StableTape T)
      → IsTape lower upper h x t
      → IsTape lower none h x t
  open_end lower upper h x none k = k
  open_end lower upper h x (some root) k = record {
    valid = k.valid;
    above = k.above;
    below = tt;
    holds = k.holds;
    high = k.high;
  }

  pub lift_lower :
      (lower : Option LeafOrderKey) (h : ℕ) (x : List T) (t : StableTape T)
      → IsTape lower none h x t
      → IsTape none none h x t
  lift_lower lower h x none k = k
  lift_lower lower h x (some root) k = record {
    valid = k.valid;
    above = tt;
    below = tt;
    holds = k.holds;
    high = k.high;
  }
