-- ===== src/Main/Startup.antt =====
-- Which configuration the server of src/posixMain.cpp is started with.
use smerp.Base.{
  not, ℕ, ◌≡◌, ◌<◌, ◌⊎◌, inl, inr, refl, ap, subst, true, false, List, Option, none, some,
}
use smerp.Logging.Level.{Level}
use smerp.Config.CommandLine.{
  Command, default, print_help, print_version, check_config, test_config, print_config, unknown,
  CmdLineConfig, new_config, is_default,
}
use smerp.Config.CommandLine
use smerp.Config.Application.{application, is_empty}
use smerp.Config.File.{CfgFileConfig, short_mod, shared}
use smerp.Config.File.Parse
use smerp.Config.File.Endpoints.{IsListed}
use smerp.Config.File.Checked.{IsUsable, parse-IsUsable}
use smerp.Main.Cases.{either, either_option}
use smerp.Main.Privileges.{served_as, served_on, is_detached, IsEntitled, start-Orderly}
use smerp.Main.{
  Run, act, sets_console_level, System, start, run_command, configure, config_file, choose,
  run_simple, with_arguments, posix_main,
}

module _ (sys : System) where
  abbrev pub IsGiven : CmdLineConfig → Type 0
  IsGiven cmd =
      CommandLine.parse sys.library.to_upper sys.library.trim sys.options
        (new_config sys.indeterminate)
      ≡ (true, cmd)

  -- The command that the command line gives.
  abbrev pub command_given : Command
  command_given =
      (CommandLine.parse sys.library.to_upper sys.library.trim sys.options
        (new_config sys.indeterminate)).1.command

  -- The command line and the file that were read.
  pub record Reads (cmd : CmdLineConfig) (path : List ℕ) (file : CfgFileConfig) : Type 0 where
    pub given_cmd : IsGiven cmd
    pub chosen : config_file sys cmd ≡ some path
    pub parsed : Parse.parse sys.library path sys.fresh_file ≡ (true, file)
    pub usable : IsUsable file

  -- A server that was started with a command line and a file of the configuration.
  pub record Started (r : Run) : Type 0 where
    pub cmd : CmdLineConfig
    pub path : List ℕ
    pub file : CfgFileConfig
    pub ids : Option ℕ × Option ℕ
    pub reads : Reads cmd path file
    pub on_file : served_on r.0 ≡ some (file.address, file.ssl_address)
    pub as_ids : served_as none none r.0 ≡ some ids
    pub entitled : IsEntitled sys (application sys.fresh_log cmd (shared file)) ids
    pub background :
        is_detached false r.0 ≡ not (application sys.fresh_log cmd (shared file)).foreground
    pub succeeds : r.1 ≡ 0

  -- For a command of the command line: the program fails, answers the command, or starts a server.
  abbrev pub MaybeStarted : Command → Run → Type 0
  MaybeStarted c r =
      ((served_as none none r.0 ≡ none) × ((r.1 ≡ 1) ⊎ (is_default c ≡ false))) ⊎ Started r

  module _ (absolute_some : (p base : List ℕ) → is_empty (sys.library.absolute p base) ≡ false)
      (port_fits : (s : List ℕ) (port : ℕ)
        → sys.library.lexical_port s ≡ some port
        → port < short_mod)
      (fresh_listed : IsListed sys.fresh_file) where
    start-MaybeStarted :
        (c : Command) (cmd : CmdLineConfig) (path : List ℕ) (file : CfgFileConfig) (level : Level)
        → Reads cmd path file
        → MaybeStarted c (
            act
              (sets_console_level level)
              (start sys (application sys.fresh_log cmd (shared file)) file))
    start-MaybeStarted c cmd path file level reads =
        elim (start-Orderly sys (application sys.fresh_log cmd (shared file)) file).verdict [
          | inl (code, unserved) ↦ inl (unserved, inl code)
          | inr (code, ids, served, on, entitled, background) ↦ inr (record {
            cmd = cmd;
            path = path;
            file = file;
            ids = ids;
            reads = reads;
            on_file = on;
            as_ids = served;
            entitled = entitled;
            background = background;
            succeeds = code;
          })
        ]

    run_command-MaybeStarted :
        (command : Command) (cmd : CmdLineConfig) (path : List ℕ) (file : CfgFileConfig)
        (level : Level)
        → Reads cmd path file
        → MaybeStarted command (
            act
              (sets_console_level level)
              (run_command sys command (application sys.fresh_log cmd (shared file)) file))
    unfolding run_command
    run_command-MaybeStarted check_config cmd path file level u = inl (refl, inr refl)
    run_command-MaybeStarted print_config cmd path file level u = inl (refl, inr refl)
    run_command-MaybeStarted test_config cmd path file level u = inl (refl, inr refl)
    run_command-MaybeStarted default cmd path file level u =
        start-MaybeStarted default cmd path file level u
    run_command-MaybeStarted print_help cmd path file level u =
        start-MaybeStarted print_help cmd path file level u
    run_command-MaybeStarted print_version cmd path file level u =
        start-MaybeStarted print_version cmd path file level u
    run_command-MaybeStarted unknown cmd path file level u =
        start-MaybeStarted unknown cmd path file level u

    configure-MaybeStarted :
        (cmd : CmdLineConfig) (path : List ℕ)
        → IsGiven cmd
        → config_file sys cmd ≡ some path
        → MaybeStarted cmd.command (configure sys cmd path)
    unfolding configure
    configure-MaybeStarted cmd path given chosen =
        let r = Parse.parse sys.library path sys.fresh_file in
        either (MaybeStarted cmd.command) r.0 _ _
          (λ parsed.
            let read : r ≡ (true, r.1) = ap (λ b. (b, r.1)) parsed in
            run_command-MaybeStarted cmd.command cmd path r.1 _ (record {
              given_cmd = given;
              chosen = chosen;
              parsed = read;
              usable =
                  parse-IsUsable sys.library absolute_some port_fits path sys.fresh_file r.1
                    fresh_listed read;
            }))
          (λ refused. inl (refl, inl refl))

    choose-MaybeStarted :
        (cmd : CmdLineConfig) → IsGiven cmd → MaybeStarted cmd.command (choose sys cmd)
    unfolding choose
    choose-MaybeStarted cmd given =
        either_option (MaybeStarted cmd.command) (config_file sys cmd) _ _
          (λ missing. inl (refl, inl refl))
          (λ path found. configure-MaybeStarted cmd path given found)

    run_simple-MaybeStarted :
        (command : Command) (cmd : CmdLineConfig)
        → cmd.command ≡ command
        → IsGiven cmd
        → MaybeStarted command (run_simple sys command cmd)
    unfolding run_simple
    run_simple-MaybeStarted print_version cmd e given = inl (refl, inr refl)
    run_simple-MaybeStarted print_help cmd e given = inl (refl, inr refl)
    run_simple-MaybeStarted check_config cmd e given =
        subst (λ c. MaybeStarted c (choose sys cmd)) e (choose-MaybeStarted cmd given)
    run_simple-MaybeStarted print_config cmd e given =
        subst (λ c. MaybeStarted c (choose sys cmd)) e (choose-MaybeStarted cmd given)
    run_simple-MaybeStarted test_config cmd e given =
        subst (λ c. MaybeStarted c (choose sys cmd)) e (choose-MaybeStarted cmd given)
    run_simple-MaybeStarted default cmd e given =
        subst (λ c. MaybeStarted c (choose sys cmd)) e (choose-MaybeStarted cmd given)
    run_simple-MaybeStarted unknown cmd e given =
        subst (λ c. MaybeStarted c (choose sys cmd)) e (choose-MaybeStarted cmd given)

    arguments-MaybeStarted : MaybeStarted command_given (with_arguments sys)
    unfolding with_arguments
    arguments-MaybeStarted =
        let r =
          CommandLine.parse sys.library.to_upper sys.library.trim sys.options
            (new_config sys.indeterminate) in
        either (MaybeStarted command_given) r.0 _ _
          (λ parsed. run_simple-MaybeStarted r.1.command r.1 refl (ap (λ b. (b, r.1)) parsed))
          (λ refused. inl (refl, inl refl))

    -- The program starts no server, and then its exit code is 1 or the command line has a command;
    -- or its exit code is 0, and it starts one on the endpoints of a configuration file in which
    -- every endpoint has a host and a port between 1 and 65535 and every log that is asked for has a
    -- level and its file or facility; and that server runs in the foreground, with the group and the
    -- user of the caller, or as a daemon, with those of the command line and the file. It is
    -- required that an absolute path is not empty, that a port that is read fits in 16 bits, and that
    -- the endpoints of a fresh configuration are listed.
    pub posix_main-MaybeStarted : MaybeStarted command_given (posix_main sys)
    unfolding posix_main
    posix_main-MaybeStarted =
        either (MaybeStarted command_given) sys.locale_set _ _
          (λ located.
            either (MaybeStarted command_given) sys.text_domain_bound _ _
              (λ bound.
                either (MaybeStarted command_given) sys.text_domain_set _ _
                  (λ chosen. arguments-MaybeStarted) (λ unset. inl (refl, inl refl)))
              (λ unbound. inl (refl, inl refl)))
          (λ unlocated. arguments-MaybeStarted)
