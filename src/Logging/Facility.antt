-- ===== src/Logging/Facility.antt =====
-- `SyslogFacility` of include/logSyslogFacility.hpp and src/logSyslogFacility.cpp. What boost's
-- `to_upper_copy` and `trim` do is a parameter.
use smerp.Base.{ℕ, List, if◌then◌else◌, codes, same}

pub data Facility : Type 0 where
  facility_kern facility_user facility_mail facility_daemon facility_auth : Facility
  facility_syslog facility_lpr facility_news facility_uucp facility_cron : Facility
  facility_authpriv facility_ftp facility_ntp facility_security facility_console : Facility
  facility_audit facility_local0 facility_local1 facility_local2 facility_local3 : Facility
  facility_local4 facility_local5 facility_local6 facility_local7 facility_undefined : Facility

-- `operator<<`
unfoldable pub facility_name : Facility → List ℕ
facility_name facility_kern = codes "KERN"
facility_name facility_user = codes "USER"
facility_name facility_mail = codes "MAIL"
facility_name facility_daemon = codes "DAEMON"
facility_name facility_auth = codes "AUTH"
facility_name facility_syslog = codes "SYSLOG"
facility_name facility_lpr = codes "LPR"
facility_name facility_news = codes "NEWS"
facility_name facility_uucp = codes "UUCP"
facility_name facility_cron = codes "CRON"
facility_name facility_authpriv = codes "AUTHPRIV"
facility_name facility_ftp = codes "FTP"
facility_name facility_ntp = codes "NTP"
facility_name facility_security = codes "SECURITY"
facility_name facility_console = codes "CONSOLE"
facility_name facility_audit = codes "AUDIT"
facility_name facility_local0 = codes "LOCAL0"
facility_name facility_local1 = codes "LOCAL1"
facility_name facility_local2 = codes "LOCAL2"
facility_name facility_local3 = codes "LOCAL3"
facility_name facility_local4 = codes "LOCAL4"
facility_name facility_local5 = codes "LOCAL5"
facility_name facility_local6 = codes "LOCAL6"
facility_name facility_local7 = codes "LOCAL7"
facility_name facility_undefined = codes "Unknown enum used '24'"

-- The comparisons of `str2SyslogFacility`, on the text in upper case and without blanks around it.
unfoldable pub facility_of : List ℕ → Facility
facility_of s =
    if same s (codes "KERN")
    then facility_kern
    else if same s (codes "USER")
    then facility_user
    else if same s (codes "MAIL")
    then facility_mail
    else if same s (codes "DAEMON")
    then facility_daemon
    else if same s (codes "AUTH")
    then facility_auth
    else if same s (codes "SYSLOG")
    then facility_syslog
    else if same s (codes "LPR")
    then facility_lpr
    else if same s (codes "NEWS")
    then facility_news
    else if same s (codes "UUCP")
    then facility_uucp
    else if same s (codes "CRON")
    then facility_cron
    else if same s (codes "AUTHPRIV")
    then facility_authpriv
    else if same s (codes "FTP")
    then facility_ftp
    else if same s (codes "NTP")
    then facility_ntp
    else if same s (codes "SECURITY")
    then facility_security
    else if same s (codes "CONSOLE")
    then facility_console
    else if same s (codes "AUDIT")
    then facility_audit
    else if same s (codes "LOCAL0")
    then facility_local0
    else if same s (codes "LOCAL1")
    then facility_local1
    else if same s (codes "LOCAL2")
    then facility_local2
    else if same s (codes "LOCAL3")
    then facility_local3
    else if same s (codes "LOCAL4")
    then facility_local4
    else if same s (codes "LOCAL5")
    then facility_local5
    else if same s (codes "LOCAL6")
    then facility_local6
    else if same s (codes "LOCAL7")
    then facility_local7
    else facility_undefined

unfoldable pub str2syslog_facility : (List ℕ → List ℕ) → (List ℕ → List ℕ) → List ℕ → Facility
str2syslog_facility to_upper_copy trim str = facility_of (trim (to_upper_copy str))
