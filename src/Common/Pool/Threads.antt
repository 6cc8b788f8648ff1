-- ===== src/Common/Pool/Threads.antt =====
-- The pool under any interleaving of its threads: objects leave it in the order in which they came,
-- and no wakeup is lost.
use smerp.Base.{
  ℕ, ◌+◌, ◌≤◌, ◌≡◌, refl, sym, ap, ◌∙◌, Bool, true, ◌⊎◌, inl, inr, List, [], ◌∷◌, ◌++◌, none, some,
  arith, if◌then◌else◌, length, append-nil, append_assoc, length-append,
}
use smerp.Common.Pool.{
  Phase, outside, entering, pushed, waiting, notified, returned, Pool, try_get, wake, add, Event,
  gets_of, is_waiting, is_ready, count, Step, calls_get, tries, wakes, expires, leaves, adds,
  notifies, notifies_none, sets_timeout, Runs, start, goes_on,
}

module _ {ℓ} {A : Type ℓ} where
  tried-queue :
      (to : ℕ) (objs : List A)
      → (gets_of (try_get to objs).0).gets ++ (try_get to objs).1
        ≡ objs ++ (gets_of (try_get to objs).0).puts
  unfolding try_get
  tried-queue to [] = refl
  tried-queue to (obj ∷ objs) = sym (append-nil (obj ∷ objs))

  -- What a step hands out comes from the front, and what it adds goes behind.
  Step-queue :
      {p q : Pool A} {e : Event A} → Step p e q → e.gets ++ q.available ≡ p.available ++ e.puts
  unfolding add
  Step-queue {p} (calls_get before behind t) = sym (append-nil p.available)
  Step-queue {p} (tries before behind t) = tried-queue p.timeout p.available
  Step-queue {p} (wakes timed before behind t) = sym (append-nil p.available)
  Step-queue {p} (expires before behind t) = sym (append-nil p.available)
  Step-queue {p} (leaves obj before behind t) = sym (append-nil p.available)
  Step-queue {p} (adds obj before behind t) = refl
  Step-queue {p} (notifies timed before behind before' behind' t u) = sym (append-nil p.available)
  Step-queue {p} (notifies_none before behind t c) = sym (append-nil p.available)
  Step-queue {p} (sets_timeout to) = sym (append-nil p.available)

  -- However the threads interleave, the objects that were handed out, and behind them those in
  -- the pool, are those that were in the pool at first, and behind them those that were added, in
  -- their order.
  pub Runs-queue :
      {p q : Pool A} {puts gets : List A}
      → Runs p puts gets q
      → gets ++ q.available ≡ p.available ++ puts
  Runs-queue {p} start = sym (append-nil p.available)
  Runs-queue {p} (goes_on {puts} {gets} {q} {r} {e} run step) =
      append_assoc gets e.gets r.available
      ∙ ap (λ x. gets ++ x) (Step-queue step)
      ∙ sym (append_assoc gets q.available e.puts)
      ∙ ap (λ x. x ++ e.puts) (Runs-queue run)
      ∙ append_assoc p.available puts e.puts

  count-append :
      (f : Phase A → Bool) (xs ys : List (Phase A)) → count f (xs ++ ys) ≡ count f xs + count f ys
  count-append f [] ys = omega arith
  count-append f (x ∷ xs) ys = omega (arith, count-append f xs ys)

  -- Either no thread waits without having been notified, or enough others are about to look for the
  -- objects that are there, or to notify one that waits.
  abbrev pub Wakeful : Pool A → Type 0
  Wakeful p = (count is_waiting p.threads ≡ 0) ⊎ (length p.available ≤ count is_ready p.threads)

  abbrev weight : (Phase A → Bool) → Phase A → ℕ
  weight f ph = if f ph then 1 else 0

  -- A thread that does not begin to wait, and is about to look for each object that comes.
  changes-Wakeful :
      (p : Pool A) (objs : List A) (before behind : List (Phase A)) (ph ph' : Phase A)
      → p.threads ≡ before ++ ph ∷ behind
      → weight is_waiting ph' ≤ weight is_waiting ph
      → length objs + weight is_ready ph ≤ length p.available + weight is_ready ph'
      → Wakeful p
      → Wakeful (record p { available = objs; threads = before ++ ph' ∷ behind })
  changes-Wakeful p objs before behind ph ph' t fewer more w = elim w [
    | inl none_waits ↦ inl (
        omega (
          arith,
          none_waits,
          fewer,
          ap (count is_waiting) t,
          count-append is_waiting before (ph ∷ behind),
          count-append is_waiting before (ph' ∷ behind),
        ))
    | inr enough ↦ inr (
        omega (
          arith,
          enough,
          more,
          ap (count is_ready) t,
          count-append is_ready before (ph ∷ behind),
          count-append is_ready before (ph' ∷ behind),
        ))
  ]

  tries-Wakeful :
      (p : Pool A) (objs : List A) (before behind : List (Phase A))
      → p.available ≡ objs
      → p.threads ≡ before ++ entering ∷ behind
      → Wakeful p
      → Wakeful (record {
        available = (try_get p.timeout objs).1;
        timeout = p.timeout;
        threads = before ++ (try_get p.timeout objs).0 ∷ behind;
      })
  unfolding try_get
  tries-Wakeful p [] before behind e t w = inr (omega arith)
  tries-Wakeful p (obj ∷ objs) before behind e t w =
      changes-Wakeful p objs before behind entering (returned (some obj)) t (omega arith)
        (omega (arith, ap length e)) w

  wakes-Wakeful :
      (p : Pool A) (objs : List A) (timed : Bool) (before behind : List (Phase A))
      → p.available ≡ objs
      → (p.threads ≡ before ++ waiting timed ∷ behind)
        ⊎ (p.threads ≡ before ++ notified timed ∷ behind)
      → Wakeful p
      → Wakeful (record p { threads = before ++ wake timed objs ∷ behind })
  unfolding wake
  wakes-Wakeful p [] timed before behind e t w = inr (omega (arith, ap length e))
  wakes-Wakeful p (obj ∷ objs) timed before behind e (inl t) w =
      changes-Wakeful p p.available before behind (waiting timed) entering t (omega arith)
        (omega arith) w
  wakes-Wakeful p (obj ∷ objs) timed before behind e (inr t) w =
      changes-Wakeful p p.available before behind (notified timed) entering t (omega arith)
        (omega arith) w

  Step-Wakeful : {p q : Pool A} {e : Event A} → Step p e q → Wakeful p → Wakeful q
  unfolding add
  Step-Wakeful {p} (calls_get before behind t) w =
      changes-Wakeful p p.available before behind outside entering t (omega arith) (omega arith) w
  Step-Wakeful {p} (tries before behind t) w = tries-Wakeful p p.available before behind refl t w
  Step-Wakeful {p} (wakes timed before behind t) w =
      wakes-Wakeful p p.available timed before behind refl t w
  Step-Wakeful {p} (expires before behind t) w =
      changes-Wakeful p p.available before behind (waiting true) (returned none) t (omega arith)
        (omega arith) w
  Step-Wakeful {p} (leaves obj before behind t) w =
      changes-Wakeful p p.available before behind (returned obj) outside t (omega arith)
        (omega arith) w
  Step-Wakeful {p} (adds obj before behind t) w =
      changes-Wakeful p (p.available ++ (obj ∷ [])) before behind outside pushed t (omega arith)
        (omega (arith, length-append p.available (obj ∷ []))) w
  Step-Wakeful {p} (notifies timed before behind before' behind' t u) w = elim w [
    | inl none_waits ↦ absurd (
        omega (
          arith,
          none_waits,
          ap (count is_waiting) t,
          ap (count is_waiting) u,
          count-append is_waiting before (pushed ∷ behind),
          count-append is_waiting before (outside ∷ behind),
          count-append is_waiting before' (waiting timed ∷ behind'),
        ))
    | inr enough ↦ inr (
        omega (
          arith,
          enough,
          ap (count is_ready) t,
          ap (count is_ready) u,
          count-append is_ready before (pushed ∷ behind),
          count-append is_ready before (outside ∷ behind),
          count-append is_ready before' (waiting timed ∷ behind'),
          count-append is_ready before' (notified timed ∷ behind'),
        ))
  ]
  Step-Wakeful {p} (notifies_none before behind t none_waits) w = inl (
      omega (
        arith,
        none_waits,
        ap (count is_waiting) t,
        count-append is_waiting before (pushed ∷ behind),
        count-append is_waiting before (outside ∷ behind),
      ))
  Step-Wakeful {p} (sets_timeout to) w = w

  -- No wakeup is lost: after any steps from a pool in which no thread waits, either no thread waits
  -- without having been notified, or for each object in the pool there is a thread that is about to
  -- look for one, or to notify one that waits.
  pub Runs-Wakeful :
      {p q : Pool A} {puts gets : List A}
      → count is_waiting p.threads ≡ 0
      → Runs p puts gets q
      → Wakeful q
  Runs-Wakeful none_waits start = inl none_waits
  Runs-Wakeful none_waits (goes_on run step) = Step-Wakeful step (Runs-Wakeful none_waits run)
