-- ===== src/Main/Privileges.antt =====
-- As whom the server runs that src/posixMain.cpp starts, and what is left behind.
use smerp.Base.{
  not, same, if◌then◌else◌, ℕ, ◌≡◌, ◌⊎◌, inl, inr, refl, Bool, true, false, List, [], ◌∷◌, Option,
  none, some, arith,
}
use smerp.Config.Application.{ApplicationConfiguration}
use smerp.Config.File.{CfgFileConfig, TcpEndpoint, SslEndpoint}
use smerp.Main.Cases.{either, either_option}
use smerp.Main.{
  Action, daemonizes, sets_gid, sets_uid, writes_pid_file, blocks_signals, restores_signals,
  blocks_stop_signals, waits_for_signal, starts_server, stops_server, joins_thread,
  removes_pid_file, Run, act, failure, System, serve, drop_privileges, detach, start,
}

-- The group and the user in effect where the server is started; at first they are `g` and `u`.
abbrev pub served_as : Option ℕ → Option ℕ → List Action → Option (Option ℕ × Option ℕ)
served_as g u [] = none
served_as g u (starts_server address ssl_address threads most ∷ rest) = some (g, u)
served_as g u (sets_gid gid ∷ rest) = served_as (some gid) u rest
served_as g u (sets_uid uid ∷ rest) = served_as g (some uid) rest
served_as g u (_ ∷ rest) = served_as g u rest

-- The endpoints that the server is started with.
abbrev pub served_on : List Action → Option (List TcpEndpoint × List SslEndpoint)
served_on [] = none
served_on (starts_server address ssl_address threads most ∷ rest) = some (address, ssl_address)
served_on (_ ∷ rest) = served_on rest

-- Whether the server runs at the end.
abbrev pub is_running : Bool → List Action → Bool
is_running b [] = b
is_running b (starts_server address ssl_address threads most ∷ rest) = is_running true rest
is_running b (joins_thread ∷ rest) = is_running false rest
is_running b (_ ∷ rest) = is_running b rest

-- Whether the process has become a daemon where the server is started.
abbrev pub is_detached : Bool → List Action → Bool
is_detached b [] = b
is_detached b (starts_server address ssl_address threads most ∷ rest) = b
is_detached b (daemonizes ∷ rest) = is_detached true rest
is_detached b (_ ∷ rest) = is_detached b rest

abbrev pub without_path : List ℕ → List (List ℕ) → List (List ℕ)
without_path path [] = []
without_path path (p ∷ ps) = if same p path then without_path path ps else p ∷ without_path path ps

-- The files with the process id that are there at the end, of those written; the first ones are
-- there at the start.
abbrev pub files_left : List (List ℕ) → List Action → List (List ℕ)
files_left ps [] = ps
files_left ps (writes_pid_file path ∷ rest) = files_left (path ∷ ps) rest
files_left ps (removes_pid_file path ∷ rest) = files_left (without_path path ps) rest
files_left ps (_ ∷ rest) = files_left ps rest

same_refl : (xs : List ℕ) → same xs xs ≡ true
same_refl [] = refl
same_refl (x ∷ xs) = ground (arith, same_refl xs)

module _ (sys : System) where
  -- In the foreground nothing is changed; what is no foreground process runs as the group and the user of the
  -- configuration.
  abbrev pub IsEntitled : ApplicationConfiguration → Option ℕ × Option ℕ → Type 0
  IsEntitled config (g, u) =
      ((config.foreground ≡ true) × (g ≡ none) × (u ≡ none))
      ⊎ ((config.foreground ≡ false)
          × (gid : ℕ) × (uid : ℕ) × (sys.getgrnam config.group ≡ some gid)
          × (sys.getpwnam config.user ≡ some uid)
          × (g ≡ some gid)
          × (u ≡ some uid))

  -- A run that starts from a group and a user, as a daemon or not, and with some files written.
  pub record Orderly (config : ApplicationConfiguration) (file : CfgFileConfig) (g u : Option ℕ)
      (d : Bool) (ps : List (List ℕ)) (r : Run) : Type 0 where
    pub verdict :
        ((r.1 ≡ 1) × (served_as g u r.0 ≡ none))
        ⊎ ((r.1 ≡ 0)
            × (ids : Option ℕ × Option ℕ) × (served_as g u r.0 ≡ some ids)
            × (served_on r.0 ≡ some (file.address, file.ssl_address))
            × IsEntitled config ids
            × (is_detached d r.0 ≡ not config.foreground))
    pub stopped : is_running false r.0 ≡ false
    pub cleaned : (files_left ps r.0 ≡ []) ⊎ ((r.1 ≡ 1) × (sys.server_starts ≡ false))

  failed-Orderly :
      (config : ApplicationConfiguration) (file : CfgFileConfig) (g u : Option ℕ) (d : Bool)
      → Orderly config file g u d [] ([], 1)
  failed-Orderly config file g u d = record {
    verdict = inl (refl, refl);
    stopped = refl;
    cleaned = inl refl;
  }

  -- Where the privileges are right, and a file was written by a daemon only.
  serve-Orderly :
      (config : ApplicationConfiguration) (file : CfgFileConfig) (g u : Option ℕ) (d : Bool)
      (ps : List (List ℕ))
      → IsEntitled config (g, u)
      → d ≡ not config.foreground
      → (ps ≡ []) ⊎ ((ps ≡ file.pid_file ∷ []) × (config.foreground ≡ false))
      → Orderly config file g u d ps (serve sys config file)
  unfolding serve
  serve-Orderly config file g u d ps entitled background h =
      either (λ r. Orderly config file g u d ps (act blocks_signals r)) sys.server_starts _ _
        (λ starts.
          either (λ r. Orderly config file g u d ps (before r)) config.foreground _ _
            (λ front. record {
              verdict = inr (refl, (g, u), refl, refl, entitled, background);
              stopped = refl;
              cleaned = inl (elim h [
                | inl unwritten ↦ unwritten
                | inr (one, other) ↦ absurd (ground (arith, front, other))
              ]);
            })
            (λ daemon. record {
              verdict = inr (refl, (g, u), refl, refl, entitled, background);
              stopped = refl;
              cleaned = inl (removed ps h);
            }))
        (λ throws. record {
          verdict = inl (refl, refl);
          stopped = refl;
          cleaned = inr (refl, throws);
        })
    where
      removed :
          (ps : List (List ℕ))
          → (ps ≡ []) ⊎ ((ps ≡ file.pid_file ∷ []) × (config.foreground ≡ false))
          → without_path file.pid_file ps ≡ []
      removed ps (inl none_written) = rw none_written refl
      removed ps (inr (one, daemon)) = rw (one, same_refl file.pid_file) refl

      before : Run → Run
      before r = act blocks_signals (
          act (starts_server file.address file.ssl_address file.threads file.max_connections) (
            act restores_signals (
              act blocks_stop_signals
                (act waits_for_signal (act stops_server (act joins_thread r))))))

  drop_privileges-Orderly :
      (config : ApplicationConfiguration) (file : CfgFileConfig)
      → config.foreground ≡ false
      → Orderly config file none none true [] (drop_privileges sys config file)
  unfolding drop_privileges
  drop_privileges-Orderly config file daemon =
      let P : Run → Type 0 = Orderly config file none none true [] in
      either_option P (sys.getgrnam config.group) _ _
        (λ missing. failed-Orderly config file none none true)
        (λ gid group.
          either_option P (sys.getpwnam config.user) _ _
            (λ missing. failed-Orderly config file none none true)
            (λ uid user.
              either P (sys.setgid_fails gid) _ _
                (λ fails. failed-Orderly config file none none true)
                (λ changed.
                  either (λ r. P (act (sets_gid gid) r)) (sys.setuid_fails uid) _ _
                    (λ fails. record {
                      verdict = inl (refl, refl);
                      stopped = refl;
                      cleaned = inl refl;
                    })
                    (λ changed_too.
                      either (λ r. P (act (sets_gid gid) (act (sets_uid uid) r)))
                        (sys.pid_file_good file.pid_file) _ _
                        (λ good.
                          let o =
                            serve-Orderly config file (some gid) (some uid) true
                              (file.pid_file ∷ []) (inr (daemon, gid, uid, group, user, refl, refl))
                              (rw daemon refl) (inr (refl, daemon)) in
                          record { verdict = o.verdict; stopped = o.stopped; cleaned = o.cleaned })
                        (λ bad. record {
                          verdict = inl (refl, refl);
                          stopped = refl;
                          cleaned = inl refl;
                        })))))

  detach-Orderly :
      (config : ApplicationConfiguration) (file : CfgFileConfig)
      → config.foreground ≡ false
      → Orderly config file none none false [] (detach sys config file)
  unfolding detach
  detach-Orderly config file daemon =
      either (Orderly config file none none false []) sys.daemon_fails _ _
        (λ fails. failed-Orderly config file none none false)
        (λ detached.
          let o = drop_privileges-Orderly config file daemon in
          record { verdict = o.verdict; stopped = o.stopped; cleaned = o.cleaned })

  -- Either the program fails before it starts the server, or its exit code is 0 and the server runs
  -- on the endpoints of the configuration's file: in the foreground if the configuration says so, not
  -- as a daemon and with the group and the user of the caller; and otherwise as a daemon, which the
  -- process has become before, with the group and the user of the configuration. At the end the
  -- server does not run, and every file with the process id that was written is removed, by its
  -- path, but where the start of the server throws.
  pub start-Orderly :
      (config : ApplicationConfiguration) (file : CfgFileConfig)
      → Orderly config file none none false [] (start sys config file)
  unfolding start
  start-Orderly config file =
      let P : Run → Type 0 = Orderly config file none none false [] in
      either P config.foreground _ _
        (λ front.
          serve-Orderly config file none none false [] (inl (front, refl, refl)) (rw front refl)
            (inl refl))
        (λ daemon.
          either P (sys.library.exists file.pid_file) _ _
            (λ there. behind_lock (sys.lock file.pid_file) daemon)
            (λ missing. detach-Orderly config file daemon))
    where
      behind_lock :
          (lock : Option Bool)
          → config.foreground ≡ false
          → Orderly config file none none false [] (elim lock [
            | none ↦ failure
            | some true ↦ failure
            | some false ↦ detach sys config file
          ])
      behind_lock none daemon = failed-Orderly config file none none false
      behind_lock (some true) daemon = failed-Orderly config file none none false
      behind_lock (some false) daemon = detach-Orderly config file daemon
