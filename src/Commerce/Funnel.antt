-- ===== src/Commerce/Funnel.antt =====
-- `compare_funnel` of commerce.py. Python's floats are an argument.
use e_commerce_agent.Base.{ℕ, ◌+◌, Option, some, none, eqb, if◌then◌else◌}
use e_commerce_agent.Base.Int.{ℤ, pos, sub_ℕ}
use e_commerce_agent.Base.Json.{Json}

-- The quotient of two integers, the product of a float and an integer, sums, differences and halves;
-- and a float as JSON prints it.
pub record Arithmetic : Type 1 where
  pub Float : Type 0
  pub ratio : ℤ → ℤ → Float
  pub scale : ℤ → Float → Float
  pub plus : Float → Float → Float
  pub minus : Float → Float → Float
  pub half : Float → Float
  pub shown : Float → Json

module _ (a : Arithmetic) where
  open a use {Float, ratio, scale, plus, minus, half}

  pub record FunnelWindow : Type 0 where
    pub impressions : ℕ
    pub clicks : ℕ
    pub paid_orders : ℕ
    pub click_through_rate : Option Float
    pub conversion_rate : Option Float

  pub record FunnelComparison : Type 0 where
    pub comparison : FunnelWindow
    pub current : FunnelWindow
    pub order_change : ℤ
    pub order_change_rate : Option Float
    pub traffic_contribution : Option Float
    pub conversion_contribution : Option Float

  -- `_rate`
  unfoldable pub rate : ℤ → ℕ → Option Float
  rate numerator denominator =
      if eqb denominator 0 then none else some (ratio numerator (pos denominator))

  abbrev both : (Float → Float → Float) → Option Float → Option Float → Option Float
  both f (some x) (some y) = some (f x y)
  both f none y = none
  both f (some x) none = none

  abbrev window : ℕ → ℕ → ℕ → FunnelWindow
  window impressions clicks orders = record {
    impressions = impressions;
    clicks = clicks;
    paid_orders = orders;
    click_through_rate = rate (pos clicks) impressions;
    conversion_rate = rate (pos orders) clicks;
  }

  unfoldable pub compare_funnel : ℕ → ℕ → ℕ → ℕ → ℕ → ℕ → FunnelComparison
  unfolding rate
  compare_funnel impressions clicks orders impressions' clicks' orders' = record {
    comparison = window impressions clicks orders;
    current = window impressions' clicks' orders';
    order_change = sub_ℕ orders' orders;
    order_change_rate = rate (sub_ℕ orders' orders) orders;
    traffic_contribution =
        both (λ before after. half (scale (sub_ℕ clicks' clicks) (plus before after)))
          (rate (pos orders) clicks) (rate (pos orders') clicks');
    conversion_contribution =
        both (λ before after. half (scale (pos (clicks + clicks')) (minus after before)))
          (rate (pos orders) clicks) (rate (pos orders') clicks');
  }
