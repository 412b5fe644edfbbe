-- ===== src/Address/Order.antt =====
-- The comparisons of `Address` and its iteration, against the order of the numbers.
use malloc_kit.Base.{◌-◌, ◌^◌, ◌≤◌, ◌<◌, min, max, ◌≡◌, some, arith, ltb, leb}
use malloc_kit.Address.{
  Address, lt, le, gt, ge, max_address, min_address, clamp, steps_between, forward_checked,
  backward_checked,
}

-- The four comparison operators, which go through `cmp`, agree with the order of the numbers, and
-- so do `min` and `max`.
pub comparisons_lem :
    (x y : Address)
    → (lt x y ≡ ltb x y)
      × (le x y ≡ leb x y)
      × (gt x y ≡ ltb y x)
      × (ge x y ≡ leb y x)
      × (max_address x y ≡ max x y)
      × (min_address x y ≡ min x y)
unfolding lt le gt ge max_address min_address
comparisons_lem x y =
    (ground arith, ground arith, ground arith, ground arith, ground arith, ground arith)

-- `clamp` stays within its bounds, and keeps an address that is within them.
pub clamp_lem :
    (x lo hi : Address)
    → lo ≤ hi
    → (lo ≤ clamp x lo hi) × (clamp x lo hi ≤ hi) × (lo ≤ x → x ≤ hi → clamp x lo hi ≡ x)
unfolding clamp
clamp_lem x lo hi h = ground arith

-- `steps_between` counts the steps that `forward` has to take, and `backward` undoes `forward`.
pub steps_lem :
    (start end : Address)
    → start < 2 ^ 64
    → end < 2 ^ 64
    → start ≤ end
    → (steps_between start end ≡ some (end - start))
      × (forward_checked start (end - start) ≡ some end)
      × (backward_checked end (end - start) ≡ some start)
unfolding steps_between forward_checked backward_checked
steps_lem start end hs he h = (ground arith, ground arith, ground arith)
