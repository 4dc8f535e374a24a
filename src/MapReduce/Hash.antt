-- ===== src/MapReduce/Hash.antt =====
-- The hash of src/mr/worker.go, whose remainder by the number of reduce tasks is the number of a task.
use model_lib.MapReduce.{fnv32a, ihash}
use model_lib.Prelude.{ℕ, ◌%◌, ◌^◌, ◌<◌, List, arith}

-- A hash is below 2^31, so that it is not negative as an `int` of 32 bits or more, and its remainder
-- by a number of reduce tasks that is not zero is the number of one of the tasks.
pub ihash_bounds :
    (key : List ℕ) (tasks : ℕ) → 0 < tasks → (ihash key < 2 ^ 31) × (ihash key % tasks < tasks)
unfolding ihash
ihash_bounds key tasks h =
    let hash = fnv32a 2166136261 key in (omega arith, below (hash % 2 ^ 31) tasks h)
  where
    below : (a n : ℕ) → 0 < n → a % n < n
    below a n h = grind arith
