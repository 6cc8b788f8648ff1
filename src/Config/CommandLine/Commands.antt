-- ===== src/Config/CommandLine/Commands.antt =====
-- When `parse` accepts the arguments.
use smerp.Base.{
  ℕ, ◌+◌, ◌≤◌, ◌≡◌, refl, Bool, true, false, List, Option, none, some, ◌⊎◌, inl, inr, if◌then◌else◌,
  leb, arith, Bool-cases, Option-cases, ◌&&◌, not, ◌∙◌, codes, same, [], ◌∷◌,
}
use smerp.Logging.Level.{Level, level_of, str2log_level}
use smerp.Config.CommandLine.{
  Command, print_help, print_version, check_config, test_config, print_config, CmdLineConfig,
  VariablesMap, new_config, is_default, is_undefined, with_options, take_command, take_commands,
  take_debug, parse,
}

abbrev pub one_if : Bool → ℕ
one_if b = if b then 1 else 0

-- The number of commands that were given.
abbrev pub commands : VariablesMap → ℕ
commands m =
    one_if m.version
    + (one_if m.help + (one_if m.print_conf + (one_if m.check_conf + one_if m.test_conf)))

-- After `n` commands: none was given, or one, or too many.
abbrev Counted : ℕ → Bool × CmdLineConfig → Type 0
Counted n r =
    ((n ≡ 0) × (r.0 ≡ true) × (is_default r.1.command ≡ true))
    ⊎ (((n ≡ 1) × (r.0 ≡ true) × (is_default r.1.command ≡ false)) ⊎ ((2 ≤ n) × (r.0 ≡ false)))

take_command-Counted :
    (given : Bool) (cmd : Command) (msg : List ℕ) (n : ℕ) (r : Bool × CmdLineConfig)
    → is_default cmd ≡ false
    → Counted n r
    → Counted (n + one_if given) (take_command given cmd msg r)
unfolding take_command
take_command-Counted false cmd msg n (true, c) d (inl (z, e, f)) = inl (omega (arith, z), refl, f)
take_command-Counted false cmd msg n (true, c) d (inr (inl (o, e, f))) =
    inr (inl (omega (arith, o), refl, f))
take_command-Counted false cmd msg n (true, c) d (inr (inr (h, e))) = absurd (ground (arith, e))
take_command-Counted given cmd msg n (false, c) d (inl (z, e, f)) = absurd (ground (arith, e))
take_command-Counted given cmd msg n (false, c) d (inr (inl (o, e, f))) = absurd (ground (arith, e))
take_command-Counted given cmd msg n (false, c) d (inr (inr (h, e))) =
    inr (inr (omega (arith, h), refl))
take_command-Counted true cmd msg n (true, c) d (inl (z, e, f)) =
    rw f (inr (inl (omega (arith, z), refl, d)))
take_command-Counted true cmd msg n (true, c) d (inr (inl (o, e, f))) =
    rw f (inr (inr (omega (arith, o), refl)))
take_command-Counted true cmd msg n (true, c) d (inr (inr (h, e))) = absurd (ground (arith, e))

take_commands-Counted :
    (m : VariablesMap) (b : Bool)
    → Counted
        ((((0 + one_if m.version) + one_if m.help) + one_if m.print_conf)
          + one_if m.check_conf
          + one_if m.test_conf)
        (take_commands m (new_config b))
unfolding take_commands
take_commands-Counted m b = take_command-Counted m.test_conf test_config _ _ _ refl (
    take_command-Counted m.check_conf check_config _ _ _ refl (
      take_command-Counted m.print_conf print_config _ _ _ refl (
        take_command-Counted m.help print_help _ _ _ refl
          (take_command-Counted m.version print_version _ 0 _ refl (inl (refl, refl, refl))))))

-- The names that a debug level can have.
abbrev pub level_names : List (List ℕ)
level_names =
    codes "DATA"
    ∷ codes "TRACE"
    ∷ codes "DEBUG"
    ∷ codes "INFO"
    ∷ codes "NOTICE"
    ∷ codes "WARNING"
    ∷ codes "ERROR"
    ∷ codes "SEVERE"
    ∷ codes "CRITICAL"
    ∷ codes "ALERT"
    ∷ codes "FATAL"
    ∷ []

abbrev pub is_one_of : List ℕ → List (List ℕ) → Bool
is_one_of s [] = false
is_one_of s (name ∷ names) = if same s name then true else is_one_of s names

is_one_of-level : (s : List ℕ) → not (is_undefined (level_of s)) ≡ is_one_of s level_names
unfolding level_of
is_one_of-level s = ground arith

-- Whether the debug level, if there is one, is the name of a level.
abbrev pub debug_ok : (List ℕ → List ℕ) → (List ℕ → List ℕ) → Option (List ℕ) → Bool
debug_ok to_upper trim none = true
debug_ok to_upper trim (some str) = is_one_of (trim (to_upper (to_upper (trim str)))) level_names

-- A debug level is taken unless it is undefined.
behind_level :
    (l : Level) (c : CmdLineConfig) (d : CmdLineConfig)
    → (let r : Bool × CmdLineConfig = if is_undefined l then (false, c) else (true, d) in r.0)
      ≡ not (is_undefined l)
behind_level l c d = elim (Bool-cases (is_undefined l)) [
  | inl bad ↦ rw bad refl
  | inr good ↦ rw good refl
]

take_debug-ok :
    (to_upper trim : List ℕ → List ℕ) (m : VariablesMap) (c : CmdLineConfig)
    → (take_debug to_upper trim m c).0 ≡ debug_ok to_upper trim m.debug
unfolding take_debug str2log_level
take_debug-ok to_upper trim m c = elim (Option-cases m.debug) [
  | inl away ↦ rw away refl
  | inr (str, given) ↦ rw given (
      behind_level (str2log_level to_upper trim (to_upper (trim str))) _ _
      ∙ is_one_of-level (trim (to_upper (to_upper (trim str)))))
]

at_most_one :
    (m : VariablesMap) (b : Bool) → (take_commands m (new_config b)).0 ≡ leb (commands m) 1
at_most_one m b = elim (take_commands-Counted m b) [
  | inl (z, e, _) ↦ e ∙ ground (arith, z)
  | inr (inl (o, e, _)) ↦ e ∙ ground (arith, o)
  | inr (inr (h, e)) ↦ e ∙ ground (arith, h)
]

-- Arguments that boost accepts are accepted exactly if at most one command is among them and the
-- debug level, if one is given, is one of the eleven names of levels, once it has gone through
-- `trim`, `to_upper`, `to_upper` and `trim`.
pub parse-accepts :
    (to_upper trim : List ℕ → List ℕ) (m : VariablesMap) (indeterminate : Bool)
    → (parse to_upper trim (inl m) (new_config indeterminate)).0
      ≡ (leb (commands m) 1 && debug_ok to_upper trim m.debug)
unfolding parse
parse-accepts to_upper trim m indeterminate =
    let r = take_commands m (new_config indeterminate) in
    let d = with_options m r.1 in
    first r.0 (take_debug to_upper trim m d) r.1
    ∙ (λ i. at_most_one m indeterminate i && take_debug-ok to_upper trim m d i)
  where
    first :
        (b : Bool) (r : Bool × CmdLineConfig) (c : CmdLineConfig)
        → (if b then r else (false, c)).0 ≡ (b && r.0)
    first true r c = refl
    first false r c = refl
