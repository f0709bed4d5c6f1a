-- ===== src/Kg/Slugs/Tests.antt =====
-- Slugs of display names.

use industrial_rca.Prelude.{◌≡◌, refl}
use industrial_rca.Kg.Slugs.{slug}
use industrial_rca.Kg.Slugs.Segments.{slug-IsSegment, IsSegment}

slug_run : slug "  PI -- AF/İ Main #2 " ≡ "pi-af-i-main-2"
unfolding slug
slug_run = refl

slug-IsSegment_example : IsSegment (slug " P-101A / Main ")
slug-IsSegment_example = slug-IsSegment " P-101A / Main "
