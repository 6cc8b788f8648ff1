-- ===== src/Logging/Names.antt =====
-- The names of levels and facilities are read back, in upper or lower case.
use smerp.Base.{
  ℕ, ◌-◌, ◌≡◌, ◌≢◌, refl, ap, ◌∙◌, Bool, true, false, ◌&&◌, ◌||◌, List, [], ◌∷◌, map, leb, ◌==◌,
  if◌then◌else◌,
}
use smerp.Logging.Level.{
  Level, loglevel_data, loglevel_trace, loglevel_debug, loglevel_info, loglevel_notice,
  loglevel_warning, loglevel_error, loglevel_severe, loglevel_critical, loglevel_alert,
  loglevel_fatal, loglevel_undefined, level_name, level_of, str2log_level,
}
use smerp.Logging.Facility.{
  Facility, facility_kern, facility_user, facility_mail, facility_daemon, facility_auth,
  facility_syslog, facility_lpr, facility_news, facility_uucp, facility_cron, facility_authpriv,
  facility_ftp, facility_ntp, facility_security, facility_console, facility_audit, facility_local0,
  facility_local1, facility_local2, facility_local3, facility_local4, facility_local5,
  facility_local6, facility_local7, facility_undefined, facility_name, facility_of,
  str2syslog_facility,
}

-- `toupper` in the C locale.
abbrev pub upper : ℕ → ℕ
upper c = if leb b'a' c && leb c b'z' then c - 32 else c

-- No byte is a blank: a space, or a control character from tab to carriage return.
abbrev pub has_blank : List ℕ → Bool
has_blank [] = false
has_blank (c ∷ cs) = if c == b' ' || (leb 9 c && leb c 13) then true else has_blank cs

level_of-name : (l : Level) → l ≢ loglevel_undefined → level_of (level_name l) ≡ l
unfolding level_of level_name
level_of-name loglevel_data d = refl
level_of-name loglevel_trace d = refl
level_of-name loglevel_debug d = refl
level_of-name loglevel_info d = refl
level_of-name loglevel_notice d = refl
level_of-name loglevel_warning d = refl
level_of-name loglevel_error d = refl
level_of-name loglevel_severe d = refl
level_of-name loglevel_critical d = refl
level_of-name loglevel_alert d = refl
level_of-name loglevel_fatal d = refl
level_of-name loglevel_undefined d = absurd (d refl)

level_name-plain : (l : Level) → l ≢ loglevel_undefined → has_blank (level_name l) ≡ false
unfolding level_name
level_name-plain loglevel_data d = refl
level_name-plain loglevel_trace d = refl
level_name-plain loglevel_debug d = refl
level_name-plain loglevel_info d = refl
level_name-plain loglevel_notice d = refl
level_name-plain loglevel_warning d = refl
level_name-plain loglevel_error d = refl
level_name-plain loglevel_severe d = refl
level_name-plain loglevel_critical d = refl
level_name-plain loglevel_alert d = refl
level_name-plain loglevel_fatal d = refl
level_name-plain loglevel_undefined d = absurd (d refl)

facility_of-name : (f : Facility) → f ≢ facility_undefined → facility_of (facility_name f) ≡ f
unfolding facility_of facility_name
facility_of-name facility_kern d = refl
facility_of-name facility_user d = refl
facility_of-name facility_mail d = refl
facility_of-name facility_daemon d = refl
facility_of-name facility_auth d = refl
facility_of-name facility_syslog d = refl
facility_of-name facility_lpr d = refl
facility_of-name facility_news d = refl
facility_of-name facility_uucp d = refl
facility_of-name facility_cron d = refl
facility_of-name facility_authpriv d = refl
facility_of-name facility_ftp d = refl
facility_of-name facility_ntp d = refl
facility_of-name facility_security d = refl
facility_of-name facility_console d = refl
facility_of-name facility_audit d = refl
facility_of-name facility_local0 d = refl
facility_of-name facility_local1 d = refl
facility_of-name facility_local2 d = refl
facility_of-name facility_local3 d = refl
facility_of-name facility_local4 d = refl
facility_of-name facility_local5 d = refl
facility_of-name facility_local6 d = refl
facility_of-name facility_local7 d = refl
facility_of-name facility_undefined d = absurd (d refl)

facility_name-plain : (f : Facility) → f ≢ facility_undefined → has_blank (facility_name f) ≡ false
unfolding facility_name
facility_name-plain facility_kern d = refl
facility_name-plain facility_user d = refl
facility_name-plain facility_mail d = refl
facility_name-plain facility_daemon d = refl
facility_name-plain facility_auth d = refl
facility_name-plain facility_syslog d = refl
facility_name-plain facility_lpr d = refl
facility_name-plain facility_news d = refl
facility_name-plain facility_uucp d = refl
facility_name-plain facility_cron d = refl
facility_name-plain facility_authpriv d = refl
facility_name-plain facility_ftp d = refl
facility_name-plain facility_ntp d = refl
facility_name-plain facility_security d = refl
facility_name-plain facility_console d = refl
facility_name-plain facility_audit d = refl
facility_name-plain facility_local0 d = refl
facility_name-plain facility_local1 d = refl
facility_name-plain facility_local2 d = refl
facility_name-plain facility_local3 d = refl
facility_name-plain facility_local4 d = refl
facility_name-plain facility_local5 d = refl
facility_name-plain facility_local6 d = refl
facility_name-plain facility_local7 d = refl
facility_name-plain facility_undefined d = absurd (d refl)

-- What boost's `to_upper_copy` and `trim` are relied on for: the first changes the letters as
-- `toupper` does, and the second leaves a text without blanks as it is.
module _ (to_upper_copy trim : List ℕ → List ℕ)
    (to_upper_copy-map : (s : List ℕ) → to_upper_copy s ≡ map upper s)
    (trim-plain : (s : List ℕ) → has_blank s ≡ false → trim s ≡ s) where
  -- A text that is the printed name of a level but for the case of its letters is read as that
  -- level, if the level is not the undefined one.
  pub str2log_level-level_name :
      (l : Level) (s : List ℕ)
      → l ≢ loglevel_undefined
      → map upper s ≡ level_name l
      → str2log_level to_upper_copy trim s ≡ l
  unfolding str2log_level
  str2log_level-level_name l s d e =
      ap level_of
        (ap trim (to_upper_copy-map s ∙ e) ∙ trim-plain (level_name l) (level_name-plain l d))
      ∙ level_of-name l d

  -- A text that is the printed name of a facility but for the case of its letters is read as that
  -- facility, if the facility is not the undefined one.
  pub str2syslog_facility-facility_name :
      (f : Facility) (s : List ℕ)
      → f ≢ facility_undefined
      → map upper s ≡ facility_name f
      → str2syslog_facility to_upper_copy trim s ≡ f
  unfolding str2syslog_facility
  str2syslog_facility-facility_name f s d e =
      ap facility_of
        (ap trim (to_upper_copy-map s ∙ e) ∙ trim-plain (facility_name f) (facility_name-plain f d))
      ∙ facility_of-name f d
