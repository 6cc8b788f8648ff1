-- ===== src/Logging/Level.antt =====
-- `LogLevel` of include/logLevel.hpp and src/logLevel.cpp. What boost's `to_upper_copy` and `trim`
-- do is a parameter.
use smerp.Base.{ℕ, List, if◌then◌else◌, codes, same}

pub data Level : Type 0 where
  loglevel_data loglevel_trace loglevel_debug loglevel_info loglevel_notice : Level
  loglevel_warning loglevel_error loglevel_severe loglevel_critical loglevel_alert : Level
  loglevel_fatal loglevel_undefined : Level

-- The number of the enumerator.
unfoldable pub rank : Level → ℕ
rank loglevel_data = 0
rank loglevel_trace = 1
rank loglevel_debug = 2
rank loglevel_info = 3
rank loglevel_notice = 4
rank loglevel_warning = 5
rank loglevel_error = 6
rank loglevel_severe = 7
rank loglevel_critical = 8
rank loglevel_alert = 9
rank loglevel_fatal = 10
rank loglevel_undefined = 11

-- `operator<<`
unfoldable pub level_name : Level → List ℕ
level_name loglevel_data = codes "DATA"
level_name loglevel_trace = codes "TRACE"
level_name loglevel_debug = codes "DEBUG"
level_name loglevel_info = codes "INFO"
level_name loglevel_notice = codes "NOTICE"
level_name loglevel_warning = codes "WARNING"
level_name loglevel_error = codes "ERROR"
level_name loglevel_severe = codes "SEVERE"
level_name loglevel_critical = codes "CRITICAL"
level_name loglevel_alert = codes "ALERT"
level_name loglevel_fatal = codes "FATAL"
level_name loglevel_undefined = codes "Unknown enum used '11' as log level"

-- The comparisons of `str2LogLevel`, on the text in upper case and without blanks around it.
unfoldable pub level_of : List ℕ → Level
level_of s =
    if same s (codes "DATA")
    then loglevel_data
    else if same s (codes "TRACE")
    then loglevel_trace
    else if same s (codes "DEBUG")
    then loglevel_debug
    else if same s (codes "INFO")
    then loglevel_info
    else if same s (codes "NOTICE")
    then loglevel_notice
    else if same s (codes "WARNING")
    then loglevel_warning
    else if same s (codes "ERROR")
    then loglevel_error
    else if same s (codes "SEVERE")
    then loglevel_severe
    else if same s (codes "CRITICAL")
    then loglevel_critical
    else if same s (codes "ALERT")
    then loglevel_alert
    else if same s (codes "FATAL")
    then loglevel_fatal
    else loglevel_undefined

unfoldable pub str2log_level : (List ℕ → List ℕ) → (List ℕ → List ℕ) → List ℕ → Level
str2log_level to_upper_copy trim str = level_of (trim (to_upper_copy str))
