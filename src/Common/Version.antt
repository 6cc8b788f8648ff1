-- ===== src/Common/Version.antt =====
-- `Version` of include/version.hpp and src/version.cpp. How a stream prints a number is an argument.
pub mod Order
use smerp.Base.{ℕ, Bool, true, false, not, ltb, ◌==◌, if◌then◌else◌, List, [], ◌++◌, codes}

pub record Version : Type 0 where
  pub major : ℕ
  pub minor : ℕ
  pub revision : ℕ
  pub has_revision : Bool
  pub build : ℕ
  pub has_build : Bool

abbrev pub version2 : ℕ → ℕ → Version
version2 a b = record {
  major = a;
  minor = b;
  revision = 0;
  has_revision = false;
  build = 0;
  has_build = false;
}

abbrev pub version3 : ℕ → ℕ → ℕ → Version
version3 a b c = record {
  major = a;
  minor = b;
  revision = c;
  has_revision = true;
  build = 0;
  has_build = false;
}

abbrev pub version4 : ℕ → ℕ → ℕ → ℕ → Version
version4 a b c d = record {
  major = a;
  minor = b;
  revision = c;
  has_revision = true;
  build = d;
  has_build = true;
}

unfoldable pub equal : Version → Version → Bool
equal v o =
    if not (v.major == o.major)
    then false
    else if not (v.minor == o.minor)
    then false
    else if not (v.revision == o.revision)
    then false
    else if not (v.build == o.build)
    then false
    else true

unfoldable pub greater : Version → Version → Bool
greater v o =
    if ltb o.major v.major
    then true
    else if ltb v.major o.major
    then false
    else if ltb o.minor v.minor
    then true
    else if ltb v.minor o.minor
    then false
    else if ltb o.revision v.revision
    then true
    else if ltb v.revision o.revision
    then false
    else if ltb o.build v.build
    then true
    else false

unfoldable pub not_equal : Version → Version → Bool
not_equal v o = not (equal v o)

unfoldable pub less : Version → Version → Bool
less v o = greater o v

unfoldable pub greater_equal : Version → Version → Bool
greater_equal v o = not (less v o)

unfoldable pub less_equal : Version → Version → Bool
less_equal v o = not (greater v o)

unfoldable pub to_string : (ℕ → List ℕ) → Version → List ℕ
to_string decimal v =
    let more : List ℕ = if v.has_build then codes "." ++ decimal v.build else [] in
    decimal v.major
    ++ (codes "."
        ++ (decimal v.minor
            ++ (if v.has_revision then codes "." ++ (decimal v.revision ++ more) else [])))
