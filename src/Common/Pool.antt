-- ===== src/Common/Pool.antt =====
-- `ObjectPool` of include/objectPool.hpp, with the threads that use it. A step is what a thread does
-- between taking the mutex and releasing it, or its notification, which it gives without the mutex.
pub mod Threads
mod Tests
use smerp.Base.{
  ℕ, Bool, true, false, not, List, [], ◌∷◌, ◌++◌, Option, none, some, ◌==◌, ◌≡◌, ◌⊎◌, ◌+◌,
  if◌then◌else◌,
}

-- Where a thread is: not in the pool, at the top of `get`, in one of its waits, woken by a
-- notification, with an object that it added and has not yet notified of, or behind `get`, with the
-- object or NULL. A wait is timed or not.
pub data Phase {ℓ} (A : Type ℓ) : Type ℓ where
  outside entering pushed : Phase A
  waiting notified : Bool → Phase A
  returned : Option A → Phase A

pub record Pool {ℓ} (A : Type ℓ) : Type ℓ where
  pub available : List A
  pub timeout : ℕ
  pub threads : List (Phase A)

-- The top of `get`: the thread takes the first object, or begins to wait.
unfoldable pub try_get {ℓ} : {A : Type ℓ} → ℕ → List A → Phase A × List A
try_get timeout [] = (waiting (not (timeout == 0)), [])
try_get timeout (obj ∷ objs) = (returned (some obj), objs)

-- `while (available_.empty())` behind a wait.
unfoldable pub wake {ℓ} : {A : Type ℓ} → Bool → List A → Phase A
wake timed [] = waiting timed
wake timed (obj ∷ objs) = entering

unfoldable pub add {ℓ} : {A : Type ℓ} → List A → A → List A
add available obj = available ++ (obj ∷ [])

-- The objects that a step adds and hands out.
pub record Event {ℓ} (A : Type ℓ) : Type ℓ where
  pub puts : List A
  pub gets : List A

abbrev quiet {ℓ} : {A : Type ℓ} → Event A
quiet = record { puts = []; gets = [] }

abbrev pub gets_of {ℓ} : {A : Type ℓ} → Phase A → Event A
gets_of (returned (some obj)) = record { puts = []; gets = obj ∷ [] }
gets_of _ = quiet

abbrev pub is_waiting {ℓ} : {A : Type ℓ} → Phase A → Bool
is_waiting (waiting timed) = true
is_waiting _ = false

-- A thread that will look for an object, or will wake one that waits.
abbrev pub is_ready {ℓ} : {A : Type ℓ} → Phase A → Bool
is_ready entering = true
is_ready pushed = true
is_ready (notified timed) = true
is_ready _ = false

abbrev pub count {ℓ} : {A : Type ℓ} → (A → Bool) → List A → ℕ
count f [] = 0
count f (x ∷ xs) = (if f x then 1 else 0) + count f xs

-- One step of one thread, with the threads before and behind it.
pub data Step {ℓ} {A : Type ℓ} (p : Pool A) : Event A → Pool A → Type ℓ where
  calls_get :
      (before behind : List (Phase A))
      → p.threads ≡ before ++ outside ∷ behind
      → Step p quiet (record p { threads = before ++ entering ∷ behind })
  tries :
      (before behind : List (Phase A))
      → p.threads ≡ before ++ entering ∷ behind
      → Step p (gets_of (try_get p.timeout p.available).0) (record p {
        available = (try_get p.timeout p.available).1;
        threads = before ++ (try_get p.timeout p.available).0 ∷ behind;
      })
  -- A wait may also end without a notification.
  wakes :
      (timed : Bool) (before behind : List (Phase A))
      → (p.threads ≡ before ++ waiting timed ∷ behind)
        ⊎ (p.threads ≡ before ++ notified timed ∷ behind)
      → Step p quiet (record p { threads = before ++ wake timed p.available ∷ behind })
  expires :
      (before behind : List (Phase A))
      → p.threads ≡ before ++ waiting true ∷ behind
      → Step p quiet (record p { threads = before ++ returned none ∷ behind })
  leaves :
      (obj : Option A) (before behind : List (Phase A))
      → p.threads ≡ before ++ returned obj ∷ behind
      → Step p quiet (record p { threads = before ++ outside ∷ behind })
  adds :
      (obj : A) (before behind : List (Phase A))
      → p.threads ≡ before ++ outside ∷ behind
      → Step p
          (record { puts = obj ∷ []; gets = [] })
          (record p { available = add p.available obj; threads = before ++ pushed ∷ behind })
  -- `notify_one` with a thread that waits, and with none.
  notifies :
      (timed : Bool) (before behind before' behind' : List (Phase A))
      → p.threads ≡ before ++ pushed ∷ behind
      → before ++ outside ∷ behind ≡ before' ++ waiting timed ∷ behind'
      → Step p quiet (record p { threads = before' ++ notified timed ∷ behind' })
  notifies_none :
      (before behind : List (Phase A))
      → p.threads ≡ before ++ pushed ∷ behind
      → count is_waiting p.threads ≡ 0
      → Step p quiet (record p { threads = before ++ outside ∷ behind })
  sets_timeout : (to : ℕ) → Step p quiet (record p { timeout = to })

-- Steps from a pool, with the objects that were added and those that were handed out.
pub data Runs {ℓ} {A : Type ℓ} (p : Pool A) : List A → List A → Pool A → Type ℓ where
  start : Runs p [] [] p
  goes_on :
      {puts gets : List A} {q r : Pool A} {e : Event A}
      → Runs p puts gets q
      → Step q e r
      → Runs p (puts ++ e.puts) (gets ++ e.gets) r
