-- ===== src/Lua/Stack.antt =====
-- The stack of the interpreter of examples/lua/luaHandler.cpp, over the calls of the handler.
use smerp.Base.{
  ℕ, suc, ◌+◌, ◌-◌, ◌≤◌, ◌<◌, ◌≡◌, ◌⊎◌, inl, inr, refl, ◌∙◌, false, List, some, arith, ◌==◌, ◌%◌,
  ltb, Bool-cases, codes,
}
use smerp.Network.Handler.{NetworkSignal}
use smerp.Lua.{
  LuaLibrary, Connection, Outcome, returned, thrown, crashed, pop_error, push_function,
  print_mem_stats, run_callback, then_stats, set_peer, set_ssl_peer, count_input, pass_input,
  network_input, timeout_occured, signal_occured, error_occured,
}

-- How many values the calls of the library leave on the stack, as its manual says.
pub record StackLaws (lua : LuaLibrary) : Type 0 where
  pub top-push_string :
      (l : lua.LuaState) (t : List ℕ) → lua.get_top (lua.push_string l t) ≡ suc (lua.get_top l)
  pub top-push_lstring :
      (l : lua.LuaState) (t : List ℕ) → lua.get_top (lua.push_lstring l t) ≡ suc (lua.get_top l)
  pub top-get_global :
      (l : lua.LuaState) → 0 < lua.get_top l → lua.get_top (lua.get_global l) ≡ lua.get_top l
  pub top-to_string :
      (l : lua.LuaState) (k : ℕ)
      → 0 < k
      → k ≤ lua.get_top l
      → lua.get_top (lua.to_string_first l k).1 ≡ lua.get_top l
  pub top-pop :
      (l : lua.LuaState) (n : ℕ) → n ≤ lua.get_top l → lua.get_top (lua.pop l n) ≡ lua.get_top l - n
  pub top-pcall :
      (l : lua.LuaState) (nargs nresults : ℕ)
      → nargs < lua.get_top l
      → (((lua.pcall l nargs (some nresults)).0 ≡ 0)
          × (lua.get_top (lua.pcall l nargs (some nresults)).1
              ≡ lua.get_top l - suc nargs + nresults))
        ⊎ ((0 < (lua.pcall l nargs (some nresults)).0)
            × (lua.get_top (lua.pcall l nargs (some nresults)).1 ≡ lua.get_top l - nargs))

module _ (lua : LuaLibrary) where
  -- The number of values on the stack.
  abbrev pub top : Connection lua → ℕ
  top c = lua.get_top c.l

  -- An outcome that leaves the stack of a connection as it was, but for `n` values more behind an
  -- exception.
  abbrev pub Leaves : {A : Type 0} → Connection lua → ℕ → Outcome A (Connection lua) → Type 0
  Leaves c n (returned a d) = (top d ≡ top c) × (c.max_mem_used ≤ d.max_mem_used)
  Leaves c n (thrown d) = (top d ≡ top c + n) × (c.max_mem_used ≤ d.max_mem_used)
  Leaves c n crashed = Unit {0}

  module _ (laws : StackLaws lua) where
    pub top-push_function :
        (l : lua.LuaState) (name : List ℕ)
        → lua.get_top (push_function lua l name) ≡ suc (lua.get_top l)
    unfolding push_function
    top-push_function l name = omega (
      arith,
      laws.top-push_string l name,
      laws.top-get_global (lua.push_string l name) (omega (arith, laws.top-push_string l name)),
    )

    pub top-pop_error :
        (l : lua.LuaState) → 0 < lua.get_top l → lua.get_top (pop_error lua l) ≡ lua.get_top l - 1
    unfolding pop_error
    top-pop_error l h =
        let kept = laws.top-to_string l 1 (omega arith) (omega (arith, h)) in
        omega (arith, kept, laws.top-pop (lua.to_string_first l 1).1 1 (omega (arith, kept, h)))

    run_callback-Leaves :
        (c : Connection lua) (nargs : ℕ) (pushed : lua.LuaState)
        → lua.get_top pushed ≡ top c + suc nargs
        → Leaves c 0 (run_callback lua c nargs pushed)
    unfolding run_callback
    run_callback-Leaves c nargs pushed h =
        let l = (lua.pcall pushed nargs (some 0)).1 in
        elim (laws.top-pcall pushed nargs 0 (omega (arith, h))) [
          | inl (ok, at) ↦ rw ok (omega (arith, at, h), omega arith)
          | inr (bad, at) ↦
              let failed : ((lua.pcall pushed nargs (some 0)).0 == 0) ≡ false =
                ground (arith, bad) in
              rw failed (omega (arith, at, h, top-pop_error l (omega (arith, at, h))), omega arith)
        ]

    print_mem_stats-Leaves :
        (c : Connection lua)
        → (top (print_mem_stats lua c) ≡ top c)
          × (c.max_mem_used ≤ (print_mem_stats lua c).max_mem_used)
          × (lua.gc_count c.l ≤ (print_mem_stats lua c).max_mem_used)
    unfolding print_mem_stats
    print_mem_stats-Leaves c = elim (Bool-cases (ltb c.max_mem_used (lua.gc_count c.l))) [
      | inl more ↦ rw more (refl, ground (arith, more), omega arith)
      | inr less ↦ rw less (refl, omega arith, ground (arith, less))
    ]

    then_stats-Leaves :
        (c : Connection lua) (o : Outcome Unit (Connection lua))
        → Leaves c 0 o
        → Leaves c 0 (then_stats lua o)
    unfolding then_stats
    then_stats-Leaves c (returned u d) (same_top, more) =
        let (kept, grown, seen) = print_mem_stats-Leaves d in
        (kept ∙ same_top, omega (arith, more, grown))
    then_stats-Leaves c (thrown d) h = h
    then_stats-Leaves c crashed h = tt

    pub set_peer-Leaves :
        (c : Connection lua) (host port : List ℕ) → Leaves c 0 (set_peer lua c host port)
    unfolding set_peer
    set_peer-Leaves c host port =
        let l = push_function lua c.l (codes "new_connection") in
        then_stats-Leaves c _ (
          run_callback-Leaves c 2 _ (
            omega (
              arith,
              top-push_function c.l (codes "new_connection"),
              laws.top-push_string l host,
              laws.top-push_string (lua.push_string l host) port,
            )))

    pub set_ssl_peer-Leaves :
        (c : Connection lua) (host port name : List ℕ)
        → Leaves c 0 (set_ssl_peer lua c host port name)
    unfolding set_ssl_peer
    set_ssl_peer-Leaves c host port name =
        let l = push_function lua c.l (codes "new_connection") in
        then_stats-Leaves c _ (
          run_callback-Leaves c 3 _ (
            omega (
              arith,
              top-push_function c.l (codes "new_connection"),
              laws.top-push_string l host,
              laws.top-push_string (lua.push_string l host) port,
              laws.top-push_string (lua.push_string (lua.push_string l host) port) name,
            )))

    pub timeout_occured-Leaves : (c : Connection lua) → Leaves c 0 (timeout_occured lua c)
    unfolding timeout_occured
    timeout_occured-Leaves c =
        run_callback-Leaves c 0 _ (omega (arith, top-push_function c.l (codes "timeout_occured")))

    pub signal_occured-Leaves : (c : Connection lua) → Leaves c 0 (signal_occured lua c)
    unfolding signal_occured
    signal_occured-Leaves c =
        run_callback-Leaves c 0 _ (omega (arith, top-push_function c.l (codes "signal_occured")))

    pub error_occured-Leaves :
        (c : Connection lua) (signal : NetworkSignal) → Leaves c 0 (error_occured lua c signal)
    unfolding error_occured
    error_occured-Leaves c signal = run_callback-Leaves c 1 _ (
        omega (
          arith,
          top-push_function c.l (codes "error_occured"),
          laws.top-push_string (push_function lua c.l (codes "error_occured")) _,
        ))

    count_input-Leaves :
        (c : Connection lua)
        → (top (count_input lua c) ≡ top c) × (c.max_mem_used ≤ (count_input lua c).max_mem_used)
    unfolding count_input
    count_input-Leaves c =
        let counted : Connection lua = record c { counter = c.counter + 1 } in
        let (kept, grown, seen) = print_mem_stats-Leaves counted in
        elim (Bool-cases ((c.counter + 1) % 100 == 0)) [
          | inl hundredth ↦ rw hundredth (kept, grown)
          | inr other ↦ rw other (refl, omega arith)
        ]

    pass_input-Leaves : (c : Connection lua) (bytes : List ℕ) → Leaves c 1 (pass_input lua c bytes)
    unfolding pass_input
    pass_input-Leaves c bytes =
        let f = push_function lua c.l (codes "network_input") in
        let pushed = lua.push_lstring f bytes in
        let l = (lua.pcall pushed 1 (some 0)).1 in
        let h : lua.get_top pushed ≡ top c + 2 =
          omega
            (arith, top-push_function c.l (codes "network_input"), laws.top-push_lstring f bytes) in
        elim (laws.top-pcall pushed 1 0 (omega (arith, h))) [
          | inl (ok, at) ↦ rw ok (omega (arith, at, h), omega arith)
          | inr (bad, at) ↦
              let failed : ((lua.pcall pushed 1 (some 0)).0 == 0) ≡ false = ground (arith, bad) in
              rw failed (
                omega (arith, at, h, laws.top-to_string l 1 (omega arith) (omega (arith, at, h))),
                omega arith,
              )
        ]

    pub network_input-Leaves :
        (c : Connection lua) (bytes : List ℕ) → Leaves c 1 (network_input lua c bytes)
    unfolding network_input
    network_input-Leaves c bytes =
        behind (pass_input lua (count_input lua c) bytes)
          (pass_input-Leaves (count_input lua c) bytes)
      where
        behind : (o : Outcome Unit (Connection lua)) → Leaves (count_input lua c) 1 o → Leaves c 1 o
        behind (returned u d) (t, more) =
            (t ∙ (count_input-Leaves c).0, omega (arith, more, (count_input-Leaves c).1))
        behind (thrown d) (t, more) = (
          omega (arith, t, (count_input-Leaves c).0),
          omega (arith, more, (count_input-Leaves c).1),
        )
        behind crashed h = tt
