-- ===== src/Kv/Binding/Bounds.antt =====
-- cloudflarekv/policy.go: the limit of a list that `validateListOptions` leaves.
use goja_ext.Prelude.{ℕ, ◌<◌, ◌≤◌, ◌≡◌, inr, arith}
use goja_ext.Kv.Binding.{ListLimit, limit, below_zero, validate_list_options}

-- With a maximum above 0, a limit that `validateListOptions` leaves without an error is above 0 and not
-- above the maximum.
pub validate_list_options-bounds :
    (maximum m : ℕ) (l : ListLimit)
    → 0 < maximum
    → validate_list_options maximum l ≡ inr (limit m)
    → (0 < m) × (m ≤ maximum)
unfolding validate_list_options
validate_list_options-bounds maximum m below_zero p h = cc
validate_list_options-bounds maximum m (limit n) p h = ground arith
