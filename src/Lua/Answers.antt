-- ===== src/Lua/Answers.antt =====
-- What `nextOperation` of examples/lua/luaHandler.cpp makes of the script's answer.
use smerp.Base.{
  ℕ, ◌+◌, ◌≡◌, ◌⊎◌, inl, inr, refl, ◌∙◌, subst, true, false, List, [], ◌∷◌, none, some, arith, ◌==◌,
  Bool-cases, Option-cases, same, codes,
}
use smerp.Network.Handler.{NetworkOperation, send_string, IsStartable}
use smerp.Lua.{
  LuaLibrary, Connection, Outcome, returned, thrown, crashed, push_function, operation,
  next_operation,
}
use smerp.Lua.Stack.{StackLaws, top, top-push_function, top-pop_error}

module _ (lua : LuaLibrary) where
  -- The stack behind a call of the script's `next_operation`.
  abbrev pub asked : Connection lua → ℕ × lua.LuaState
  asked c = lua.pcall (push_function lua c.l (codes "next_operation")) 0 (some 2)

  -- The script names the operation WRITE and gives no message.
  abbrev pub HasNoMessage : lua.LuaState → Type 0
  HasNoMessage l =
      (name : List ℕ) × ((lua.to_string_first l 2).0 ≡ some name)
      × (same name (codes "WRITE") ≡ true)
      × ((lua.to_string_first (lua.to_string_first l 2).1 1).0 ≡ none)

  abbrev pub Answers : Connection lua → Outcome NetworkOperation (Connection lua) → Type 0
  Answers c (returned op d) =
      (IsStartable op ⊎ (op ≡ send_string [] 0))
      × (top lua d ≡ top lua c)
      × (d.max_mem_used ≡ c.max_mem_used)
  Answers c (thrown d) = (top lua d ≡ top lua c) ⊎ (top lua d ≡ top lua c + 2)
  Answers c crashed = HasNoMessage (asked c).1

  module _ (laws : StackLaws lua) where
    text-IsStartable :
        (text : List ℕ) → IsStartable (send_string text 0) ⊎ (send_string text 0 ≡ send_string [] 0)
    text-IsStartable [] = inr refl
    text-IsStartable (c ∷ cs) = inl (omega arith, omega arith)

    -- The stack behind the two results, which are popped.
    popped : (l : lua.LuaState) (n : ℕ) → lua.get_top l ≡ n + 2 → lua.get_top (lua.pop l 2) ≡ n
    popped l n h = omega (arith, h, laws.top-pop l 2 (omega (arith, h)))

    operation-Answers :
        (c : Connection lua) (l : lua.LuaState) (op : List ℕ)
        → lua.get_top l ≡ top lua c + 2
        → (same op (codes "WRITE") ≡ true
            → (lua.to_string_first l 1).0 ≡ none
            → HasNoMessage (asked c).1)
        → Answers c (operation lua c l op)
    unfolding operation
    operation-Answers c l op h silent = elim (Bool-cases (same op (codes "WRITE"))) [
      | inl write ↦ rw write (elim (Option-cases (lua.to_string_first l 1).0) [
        | inl null ↦ rw null (silent write null)
        | inr (m, message) ↦ rw message (
          text-IsStartable m,
          popped (lua.to_string_first l 1).1 (top lua c)
              (laws.top-to_string l 1 (omega arith) (omega (arith, h)) ∙ h),
          refl,
        )
      ])
      | inr other ↦ rw other (elim (Bool-cases (same op (codes "READ"))) [
        | inl read ↦ rw read (inl (omega arith), popped l (top lua c) h, refl)
        | inr no_read ↦ rw no_read (elim (Bool-cases (same op (codes "CLOSE"))) [
          | inl close ↦ rw close (inl tt, popped l (top lua c) h, refl)
          | inr unknown ↦ rw unknown (inl (popped l (top lua c) h))
        ])
      ])
    ]

    -- What `nextOperation` comes to: an operation that the network can start, or the sending of an
    -- empty text, and then the stack is as it was and the memory in use was not
    -- looked at; an exception, and then the stack is as it was or
    -- keeps the two results of the script; or a null pointer, which is read only if the script names
    -- the operation WRITE and gives no message.
    pub next_operation-Answers : (c : Connection lua) → Answers c (next_operation lua c)
    unfolding next_operation
    next_operation-Answers c =
        let pushed = push_function lua c.l (codes "next_operation") in
        let l = (asked c).1 in
        let h = top-push_function lua laws c.l (codes "next_operation") in
        elim (laws.top-pcall pushed 0 2 (omega (arith, h))) [
          | inl (ok, at) ↦
              let two : lua.get_top l ≡ top lua c + 2 = omega (arith, at, h) in
              let kept = laws.top-to_string l 2 (omega arith) (omega (arith, two)) in
              rw ok (elim (Option-cases (lua.to_string_first l 2).0) [
                | inl null ↦ rw null (inr (kept ∙ two))
                | inr (name, named) ↦ rw named (
                    operation-Answers c (lua.to_string_first l 2).1 name (kept ∙ two)
                      (λ write null. (name, named, write, null)))
              ])
          | inr (bad, at) ↦
              let failed : ((asked c).0 == 0) ≡ false = ground (arith, bad) in
              rw failed
                (inl (omega (arith, at, h, top-pop_error lua laws l (omega (arith, at, h)))))
        ]

    pub next_operation-keeps :
        (c d : Connection lua) (op : NetworkOperation)
        → next_operation lua c ≡ returned op d
        → (top lua d ≡ top lua c) × (d.max_mem_used ≡ c.max_mem_used)
    next_operation-keeps c d op e =
        let (startable, kept, same_max) : Answers c (returned op d) =
          subst (Answers c) e (next_operation-Answers c) in
        (kept, same_max)
