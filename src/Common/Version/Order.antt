-- ===== src/Common/Version/Order.antt =====
-- The comparisons of versions are a total order.
use smerp.Base.{◌≡◌, true, false, ◌⊎◌, arith}
use smerp.Common.Version.{Version, equal, greater, less}

-- Of two versions exactly one of the three holds: greater, equal, less.
version_trichotomy :
    (v o : Version)
    → ((greater v o ≡ true) × (equal v o ≡ false) × (less v o ≡ false))
      ⊎ (((greater v o ≡ false) × (equal v o ≡ true) × (less v o ≡ false))
          ⊎ ((greater v o ≡ false) × (equal v o ≡ false) × (less v o ≡ true)))
unfolding greater equal less
version_trichotomy v o = ground arith

-- A version that is greater than one which is greater than a third is greater than that.
greater_trans : (u v w : Version) → greater u v ≡ true → greater v w ≡ true → greater u w ≡ true
unfolding greater
greater_trans u v w h k = ground (arith, h, k)
