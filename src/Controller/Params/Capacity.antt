-- ===== src/Controller/Params/Capacity.antt =====
-- The size that `requiredBytesFromRange` (pkg/iscsi/controllerserver.go) takes from a capacity range.
use csi_driver_for_windows_s.Prelude.{◌≡◌, arith, ℕ, ◌*◌, ◌^◌, ℤ, pos, ◌≤ℤ◌, ◌<ℤ◌, some, ok}
use csi_driver_for_windows_s.Controller.Params.{
  CapacityRange, range_bytes, required_bytes_from_range,
}

-- A size for a range with a minimum: at least the minimum and what is required, and at most a limit
-- that leaves room for the minimum.
pub record IsFit (min_gib : ℕ) (range : CapacityRange) (size : ℤ) : Type 0 where
  pub at_least_minimum : pos (min_gib * 2 ^ 30) ≤ℤ size
  pub at_least_required : range.required_bytes ≤ℤ size
  pub in_limit :
      pos 0 <ℤ range.limit_bytes
      → pos (min_gib * 2 ^ 30) ≤ℤ range.limit_bytes
      → size ≤ℤ range.limit_bytes

range_bytes-bounds :
    (low : ℕ) (range : CapacityRange) (size : ℤ)
    → range_bytes (pos low) range.required_bytes range.limit_bytes ≡ ok size
    → (pos low ≤ℤ size)
      × (range.required_bytes ≤ℤ size)
      × (pos 0 <ℤ range.limit_bytes → pos low ≤ℤ range.limit_bytes → size ≤ℤ range.limit_bytes)
unfolding range_bytes
range_bytes-bounds low range size h = ground arith

-- The size that `requiredBytesFromRange` takes is at least the minimum and at least the required size,
-- and it is at most the limit, if there is one that is not below the minimum.
pub required_bytes_from_range-IsFit :
    (range : CapacityRange) (min_gib : ℕ) (size : ℤ)
    → required_bytes_from_range (some range) min_gib ≡ ok size
    → IsFit min_gib range size
unfolding required_bytes_from_range
required_bytes_from_range-IsFit range min_gib size h =
    let (low, required, limit) = range_bytes-bounds (min_gib * 2 ^ 30) range size h in
    record { at_least_minimum = low; at_least_required = required; in_limit = limit }

<ℤ-≤ℤ : (a b c : ℤ) → a <ℤ b → b ≤ℤ c → a <ℤ c
<ℤ-≤ℤ a b c h k = omega arith

-- A limit that is positive but below the minimum is exceeded, unless the range is refused because the
-- required size is above the limit.
pub required_bytes_from_range-limit :
    (range : CapacityRange) (min_gib : ℕ) (size : ℤ)
    → pos 0 <ℤ range.limit_bytes
    → range.limit_bytes <ℤ pos (min_gib * 2 ^ 30)
    → required_bytes_from_range (some range) min_gib ≡ ok size
    → range.limit_bytes <ℤ size
required_bytes_from_range-limit range min_gib size positive small h =
    let fit = required_bytes_from_range-IsFit range min_gib size h in
    <ℤ-≤ℤ range.limit_bytes (pos (min_gib * 2 ^ 30)) size small fit.at_least_minimum
