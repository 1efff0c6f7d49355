-- ===== src/Lanes/Order.antt =====
-- The order of lanes under `max_lane`.
use Prim.Native.Nat.{max}
use merger.Prelude.{◌≤◌, ◌≡◌, ◌⊎◌, arith, refl}
use merger.Domain.{MergeLane}
use merger.Lanes.{order, max_lane}

-- The rank of the higher of two lanes is the larger rank.
pub order-max_lane : (a b : MergeLane) → order (max_lane a b) ≡ max (order a) (order b)
unfolding max_lane
order-max_lane a MergeLane.unset = ground arith
order-max_lane a _ = ground arith

pub max_lane-one : (a b : MergeLane) → (max_lane a b ≡ a) ⊎ (max_lane a b ≡ b)
unfolding max_lane
max_lane-one a MergeLane.unset = ground arith
max_lane-one a _ = ground arith

pub order-le : (a : MergeLane) → order a ≤ 4
unfolding order
order-le MergeLane.green = omega arith
order-le _ = omega arith

pub order_values :
    (order MergeLane.green ≡ 1)
    × (order MergeLane.yellow ≡ 2)
    × (order MergeLane.red ≡ 3)
    × (order MergeLane.black ≡ 4)
unfolding order
order_values = (refl, refl, refl, refl)
