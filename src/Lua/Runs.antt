-- ===== src/Lua/Runs.antt =====
-- The stack of the interpreter of examples/lua/luaHandler.cpp, over any calls of the handler.
use smerp.Base.{ℕ, zero, suc, ◌+◌, ◌≤◌, ◌≡◌, ◌⊎◌, inl, inr, ◌∙◌, subst, List, arith}
use smerp.Network.Handler.{NetworkOperation, NetworkSignal}
use smerp.Lua.{
  LuaLibrary, Connection, Outcome, returned, thrown, set_peer, set_ssl_peer, next_operation,
  network_input, timeout_occured, signal_occured, error_occured,
}
use smerp.Lua.Stack.{
  StackLaws, top, Leaves, set_peer-Leaves, set_ssl_peer-Leaves, timeout_occured-Leaves,
  signal_occured-Leaves, error_occured-Leaves, network_input-Leaves,
}
use smerp.Lua.Answers.{next_operation-keeps}

module _ (lua : LuaLibrary) where
  -- A callback that returned, or threw, and the connection that it left.
  abbrev Ends : Outcome Unit (Connection lua) → Connection lua → Type 0
  Ends o d = (o ≡ returned tt d) ⊎ (o ≡ thrown d)

  pub data Call (c d : Connection lua) : Type 0 where
    gets_peer : (host port : List ℕ) → Ends (set_peer lua c host port) d → Call c d
    gets_ssl_peer :
        (host port name : List ℕ) → Ends (set_ssl_peer lua c host port name) d → Call c d
    asks : (op : NetworkOperation) → next_operation lua c ≡ returned op d → Call c d
    hears : (bytes : List ℕ) → network_input lua c bytes ≡ returned tt d → Call c d
    times_out : Ends (timeout_occured lua c) d → Call c d
    is_signalled : Ends (signal_occured lua c) d → Call c d
    gets_error : (signal : NetworkSignal) → Ends (error_occured lua c signal) d → Call c d

  -- Calls one after another, and how many of them were a `networkInput` that threw. A
  -- `nextOperation` that threw is not among them.
  pub data Runs (c : Connection lua) : ℕ → Connection lua → Type 0 where
    starts : Runs c 0 c
    calls : {k : ℕ} {d e : Connection lua} → Runs c k d → Call d e → Runs c k e
    fails :
        {k : ℕ} {d e : Connection lua} (bytes : List ℕ)
        → Runs c k d
        → network_input lua d bytes ≡ thrown e
        → Runs c (suc k) e

  module _ (laws : StackLaws lua) where
    -- The stack is as it was, and the greatest memory in use is not forgotten.
    abbrev Keeps : Connection lua → Connection lua → Type 0
    Keeps c d = (top lua d ≡ top lua c) × (c.max_mem_used ≤ d.max_mem_used)

    Ends-Keeps :
        (c d : Connection lua) (o : Outcome Unit (Connection lua))
        → Leaves lua c 0 o
        → Ends o d
        → Keeps c d
    Ends-Keeps c d o h (inl e) = subst (Leaves lua c 0) e h
    Ends-Keeps c d o h (inr e) =
        let (kept, grown) : Leaves lua {A = Unit} c 0 (thrown d) = subst (Leaves lua c 0) e h in
        (omega (arith, kept), grown)

    Call-Keeps : {c d : Connection lua} → Call c d → Keeps c d
    Call-Keeps {c} {d} (gets_peer host port e) =
        Ends-Keeps c d _ (set_peer-Leaves lua laws c host port) e
    Call-Keeps {c} {d} (gets_ssl_peer host port name e) =
        Ends-Keeps c d _ (set_ssl_peer-Leaves lua laws c host port name) e
    Call-Keeps {c} {d} (asks op e) =
        let (kept, same_max) = next_operation-keeps lua laws c d op e in
        (kept, omega (arith, same_max))
    Call-Keeps {c} {d} (hears bytes e) =
        subst (Leaves lua c 1) e (network_input-Leaves lua laws c bytes)
    Call-Keeps {c} {d} (times_out e) = Ends-Keeps c d _ (timeout_occured-Leaves lua laws c) e
    Call-Keeps {c} {d} (is_signalled e) = Ends-Keeps c d _ (signal_occured-Leaves lua laws c) e
    Call-Keeps {c} {d} (gets_error signal e) =
        Ends-Keeps c d _ (error_occured-Leaves lua laws c signal) e

    -- Over any calls that return, and any that throw but of `nextOperation`, the stack of the
    -- interpreter has one value more for each `networkInput` that threw, and else stays as high as
    -- it was; and the greatest memory in use that was seen never falls.
    pub Runs-top :
        (c d : Connection lua) (k : ℕ)
        → Runs c k d
        → (top lua d ≡ top lua c + k) × (c.max_mem_used ≤ d.max_mem_used)
    Runs-top c d zero starts = (omega arith, omega arith)
    Runs-top c d k (calls {d = e} before call) =
        let (at, grown) = Runs-top c e k before in
        let (kept, more) = Call-Keeps call in (kept ∙ at, omega (arith, grown, more))
    Runs-top c d (suc k) (fails {d = e} bytes before threw) =
        let (at, grown) = Runs-top c e k before in
        let (left, more) : Leaves lua {A = Unit} e 1 (thrown d) =
          subst (Leaves lua e 1) threw (network_input-Leaves lua laws e bytes) in
        (omega (arith, at, left), omega (arith, grown, more))
