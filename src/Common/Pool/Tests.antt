-- ===== src/Common/Pool/Tests.antt =====
-- The theorems on the pool at a run of two threads.
use smerp.Base.{ℕ, ◌≡◌, refl, false, [], ◌∷◌}
use smerp.Common.Pool.{
  outside, waiting, notified, Pool, try_get, add, calls_get, tries, adds, notifies, Runs, start,
  goes_on,
}
use smerp.Common.Pool.Threads.{Runs-queue, Wakeful, Runs-Wakeful}

abbrev two_threads : Pool ℕ
two_threads = record { available = []; timeout = 0; threads = outside ∷ outside ∷ [] }

abbrev woken : Pool ℕ
woken = record { available = 7 ∷ []; timeout = 0; threads = notified false ∷ outside ∷ [] }

-- One thread begins to wait, and the other adds an object and notifies it.
woken_run : Runs two_threads (7 ∷ []) [] woken
unfolding try_get add
woken_run =
    goes_on
      (goes_on
        (goes_on (goes_on start (calls_get [] (outside ∷ []) refl)) (tries [] (outside ∷ []) refl))
        (adds 7 (waiting false ∷ []) [] refl))
      (notifies false (waiting false ∷ []) [] [] (outside ∷ []) refl refl)

Runs-queue_example : woken.available ≡ 7 ∷ []
Runs-queue_example = Runs-queue woken_run

Runs-Wakeful_example : Wakeful woken
Runs-Wakeful_example = Runs-Wakeful refl woken_run
