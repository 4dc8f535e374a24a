-- ===== src/Models.antt =====
-- The sequential model of the key/value service: src/models/kv.go. An operation of a history is a
-- porcupine.Operation; only its input is read, by `input`. A Go string is the list of its bytes.
pub mod Keys
pub mod Partition
mod Examples
use model_lib.Prelude.{ℕ, Bool, true, List, [], ◌∷◌, ◌++◌, map, ◌==◌, if◌then◌else◌}
use model_lib.Prelude.Strings.{same_bytes, sort_strings}

-- `op`: 0 is a get, 1 a put, every other number an append.
pub record KvInput : Type 0 where
  pub op : ℕ
  pub key : List ℕ
  pub value : List ℕ

pub record KvOutput : Type 0 where
  pub value : List ℕ

module _ {O : Type 0} (input : O → KvInput) where
  -- `m[key] = append(m[key], v)`, on the map as an association list.
  abbrev pub add_operation : O → List (List ℕ × List O) → List (List ℕ × List O)
  add_operation v [] = ((input v).key, v ∷ []) ∷ []
  add_operation v ((k, ops) ∷ m) =
      let rest = add_operation v m in
      if same_bytes k (input v).key then (k, ops ++ v ∷ []) ∷ m else (k, ops) ∷ rest

  unfoldable pub group_by_key : List O → List (List ℕ × List O) → List (List ℕ × List O)
  group_by_key [] m = m
  group_by_key (v ∷ history) m = group_by_key history (add_operation v m)

-- `m[k]`, nil for a missing key
abbrev pub operations_of : {O : Type 0} → List ℕ → List (List ℕ × List O) → List O
operations_of k [] = []
operations_of k ((k', ops) ∷ m) =
    let rest = operations_of k m in if same_bytes k k' then ops else rest

abbrev pub keys_of : {O : Type 0} → List (List ℕ × List O) → List (List ℕ)
keys_of [] = []
keys_of ((k, ops) ∷ m) = k ∷ keys_of m

unfoldable pub partition : {O : Type 0} → (O → KvInput) → List O → List (List O)
partition input history =
    let m = group_by_key input history [] in map (λ k. operations_of k m) (sort_strings (keys_of m))

abbrev pub init_state : List ℕ
init_state = []

-- (is the output allowed, the state afterwards)
unfoldable pub kv_step : List ℕ → KvInput → KvOutput → Bool × List ℕ
kv_step state input output =
    if input.op == 0
    then (same_bytes output.value state, state)
    else if input.op == 1
    then (true, input.value)
    else (true, state ++ input.value)
