-- ===== src/Types/Direction.antt =====
-- pkg/types/direction.go: the directions whose counters are printed, and their names.
use go_probe.Common.{String, ◌≡◌, ◌≢◌, refl, arith, if◌then◌else◌, str_eq}

pub data Direction : Type 0 where
  direction_unknown direction_sum direction_in direction_out direction_both : Direction

unfoldable pub to_string : Direction → String
to_string direction_sum = "sum"
to_string direction_in = "in"
to_string direction_out = "out"
to_string direction_both = "bi-directional"
to_string direction_unknown = "unknown"

unfoldable pub direction_from_string : String → Direction
direction_from_string s =
    if str_eq s "sum"
    then direction_sum
    else if str_eq s "in"
    then direction_in
    else if str_eq s "out"
    then direction_out
    else if str_eq s "bi-directional"
    then direction_out
    else direction_unknown

-- The name of every direction but the bidirectional one is read back; the name of that one is read as
-- the outbound direction.
pub direction_from_string-to_string :
    (d : Direction)
    → (d ≢ direction_both → direction_from_string (to_string d) ≡ d)
      × (d ≡ direction_both → direction_from_string (to_string d) ≡ direction_out)
unfolding direction_from_string to_string
direction_from_string-to_string direction_unknown = (λ n. refl, λ e. absurd (ground arith))
direction_from_string-to_string direction_sum = (λ n. refl, λ e. absurd (ground arith))
direction_from_string-to_string direction_in = (λ n. refl, λ e. absurd (ground arith))
direction_from_string-to_string direction_out = (λ n. refl, λ e. refl)
direction_from_string-to_string direction_both = (λ n. absurd (n refl), λ e. refl)
