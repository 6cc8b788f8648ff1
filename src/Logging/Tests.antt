-- ===== src/Logging/Tests.antt =====
-- The theorems on logging at concrete inputs; `trim` is a function that leaves every text as it is.
use smerp.Base.{◌≡◌, refl, map, arith, codes}
use smerp.Logging.Level.{loglevel_warning, level_name, str2log_level}
use smerp.Logging.Facility.{facility_local0, facility_name, str2syslog_facility}
use smerp.Logging.Names.{upper, str2log_level-level_name, str2syslog_facility-facility_name}

str2log_level-level_name_example :
    str2log_level (map upper) (λ s. s) (codes "Warning") ≡ loglevel_warning
unfolding level_name
str2log_level-level_name_example =
    str2log_level-level_name (map upper) (λ s. s) (λ s. refl) (λ s p. refl) loglevel_warning
      (codes "Warning") (λ e. absurd (ground (arith, e))) refl

str2syslog_facility-facility_name_example :
    str2syslog_facility (map upper) (λ s. s) (codes "local0") ≡ facility_local0
unfolding facility_name
str2syslog_facility-facility_name_example =
    str2syslog_facility-facility_name (map upper) (λ s. s) (λ s. refl) (λ s p. refl) facility_local0
      (codes "local0") (λ e. absurd (ground (arith, e))) refl
