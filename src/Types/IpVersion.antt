-- ===== src/Types/IpVersion.antt =====
-- `IPVersion` of pkg/types/types.go: the IP layer version that a condition is about.
use go_probe.Common.{◌≡◌, Bool, true, false, not, arith, if◌then◌else◌, ◌||◌}

pub data IpVersion : Type 0 where
  ip_version_none ip_version_both ip_version_v4 ip_version_v6 : IpVersion

-- `==` on the enumeration.
abbrev pub same : IpVersion → IpVersion → Bool
same ip_version_none ip_version_none = true
same ip_version_both ip_version_both = true
same ip_version_v4 ip_version_v4 = true
same ip_version_v6 ip_version_v6 = true
same _ _ = false

unfoldable pub merge : IpVersion → IpVersion → IpVersion
merge v w =
    if same v ip_version_none || same w ip_version_both
    then w
    else if same w ip_version_none || same v ip_version_both
    then v
    else if not (same v w)
    then ip_version_both
    else v

unfoldable pub is_limited : IpVersion → Bool
is_limited ip_version_v4 = true
is_limited ip_version_v6 = true
is_limited _ = false

-- The order in which versions are merged: none below the two single versions, these below both.
abbrev below : IpVersion → IpVersion → Bool
below ip_version_none w = true
below ip_version_both w = same ip_version_both w
below v ip_version_both = true
below v w = same v w

-- `Merge` is the join of that order: it lies above both versions, below every version that does, and
-- so depends neither on the order nor on the grouping of what is merged.
merge-IsJoin :
    (v w : IpVersion)
    → (below v (merge v w) ≡ true)
      × (below w (merge v w) ≡ true)
      × ((u : IpVersion) → below v u ≡ true → below w u ≡ true → below (merge v w) u ≡ true)
unfolding merge
merge-IsJoin v w = (ground arith, ground arith, λ u h g. ground arith)
