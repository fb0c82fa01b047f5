-- ===== src/Contract/Semver/Range/Samples.antt =====
-- The cases of pkg/contract/semver_test.go, and where the order and the check of a range surprise.
use Prim.Native.Nat.{Ordering}
use claim2kernel.Base.{false, refl, true, ◌↔◌, ◌≡◌}
use claim2kernel.Base.Text.{codes}
use claim2kernel.Contract.Semver.{compare_prerelease}
use claim2kernel.Contract.Semver.Matching.{InRange, match_version_range_iff}
use claim2kernel.Contract.Semver.Range.{
  empty_comparator, invalid_range, invalid_version, match_version_range, matched, version_error,
}

version_ranges :
    (match_version_range "1.0.0b2" ">=1.0.0b2,<1.1.0" ≡ matched true)
    × (match_version_range "1.0.0b1" ">=1.0.0b2,<1.1.0" ≡ matched false)
    × (match_version_range "1.0.0b10" ">1.0.0b2,<1.1.0" ≡ matched true)
    × (match_version_range "1.0.0rc1" ">1.0.0b10,<1.0.0" ≡ matched true)
    × (match_version_range "1.0.0a9" ">=1.0.0b2" ≡ matched false)
    × (match_version_range "1.0.0" ">=1.0.0b2,<1.1.0" ≡ matched true)
    × (match_version_range "1.1.0" ">=1.0.0b2,<1.1.0" ≡ matched false)
    × (match_version_range " v1.36.3+build" ">=1.36.0, <1.37.0" ≡ matched true)
unfolding match_version_range
version_ranges = (refl, refl, refl, refl, refl, refl, refl, refl)

bad_ranges :
    (match_version_range "1.0" "*" ≡ version_error invalid_version)
    × (match_version_range "1.0.0" ">=1.0.0,," ≡ version_error empty_comparator)
    × (match_version_range "01.0.0" "" ≡ version_error invalid_version)
    × (match_version_range "1.0.0" ">=1" ≡ version_error invalid_range)
unfolding match_version_range
bad_ranges = (refl, refl, refl, refl)

-- A comparator behind one that fails is not read.
unread_comparator : match_version_range "1.0.0" ">=1.36.0,<oops" ≡ matched false
unfolding match_version_range
unread_comparator = refl

-- Two spellings of one number are each above the other.
leading_zero :
    (compare_prerelease (codes "b.02") (codes "b.2") ≡ Ordering.gt)
    × (compare_prerelease (codes "b.2") (codes "b.02") ≡ Ordering.gt)
unfolding compare_prerelease
leading_zero = (refl, refl)

match_version_range_iff_example :
    (match_version_range "1.5.0" ">=1.0.0b2, <2.0.0" ≡ matched true)
    ↔ InRange "1.5.0" ">=1.0.0b2, <2.0.0"
match_version_range_iff_example = match_version_range_iff "1.5.0" ">=1.0.0b2, <2.0.0"
