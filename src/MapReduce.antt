-- ===== src/MapReduce.antt =====
-- MapReduce: src/main/mrsequential.go, the key/value pairs and ihash of src/mr/worker.go and the example RPC
-- of src/mr/coordinator.go and src/mr/rpc.go. A Go string is the list of its bytes. What an application
-- gives, `mapf` and `reducef`, is an argument, and so are the files, the sort and, for a remote call,
-- what comes back.
pub mod Sorted
pub mod Grouping
pub mod Sequential
pub mod Hash
pub mod Text
pub mod WordCount
pub mod Indexer
mod Examples
use model_lib.Prelude.{
  ℕ, zero, suc, ◌*◌, ◌%◌, ◌^◌, Option, none, some, List, [], ◌∷◌, ◌++◌, if◌then◌else◌, length,
}
use model_lib.Prelude.Strings.{same_bytes}
use Prim.Native.Nat.{bit_xor}
use mathlib.Core.Option

pub record KeyValue : Type 0 where
  pub key : List ℕ
  pub value : List ℕ

-- hash/fnv's 32-bit FNV-1a, and the lowest 31 bits of it.
unfoldable pub fnv32a : ℕ → List ℕ → ℕ
fnv32a h [] = h
fnv32a h (b ∷ bytes) = fnv32a (bit_xor h b * 16777619 % 2 ^ 32) bytes

unfoldable pub ihash : List ℕ → ℕ
ihash key = fnv32a 2166136261 key % 2 ^ 31

-- How a program ends before its work is done.
pub data Fatal : Type 0 where
  usage : Fatal
  cannot_open : List ℕ → Fatal
  cannot_read : List ℕ → Fatal

pub data Ended {ℓ} (A : Type ℓ) : Type ℓ where
  done : A → Ended A
  exits : Fatal → Ended A

-- What the system says of a file: it cannot be opened, not be read, or its contents.
pub data Contents : Type 0 where
  unopened : Contents
  unread : Contents
  holds : List ℕ → Contents

-- The pairs at the front of `rest` with the key: the values, and what is left.
abbrev pub front_values : List ℕ → List KeyValue → List (List ℕ)
front_values key [] = []
front_values key (kv ∷ rest) =
    let more = front_values key rest in if same_bytes kv.key key then kv.value ∷ more else []

abbrev pub after_front : List ℕ → List KeyValue → List KeyValue
after_front key [] = []
after_front key (kv ∷ rest) =
    let more = after_front key rest in if same_bytes kv.key key then more else kv ∷ rest

module _ (reducef : List ℕ → List (List ℕ) → List ℕ) where
  -- The loop over intermediate[i:], a line for each distinct key. The fuel is a bound on the rounds:
  -- `none` if it runs out.
  unfoldable pub reduce_groups : ℕ → List KeyValue → Option (List (List ℕ × List ℕ))
  reduce_groups fuel [] = some []
  reduce_groups zero (kv ∷ rest) = none
  reduce_groups (suc fuel) (kv ∷ rest) =
      let output = reducef kv.key (kv.value ∷ front_values kv.key rest) in
      Option.map (λ lines. (kv.key, output) ∷ lines) (reduce_groups fuel (after_front kv.key rest))

module _ (mapf : List ℕ → List ℕ → List KeyValue) (read : List ℕ → Contents) where
  -- The loop over the files that gathers `intermediate`.
  abbrev pub with_contents : List ℕ → Contents → Ended (List KeyValue) → Ended (List KeyValue)
  with_contents name unopened rest = exits (cannot_open name)
  with_contents name unread rest = exits (cannot_read name)
  with_contents name (holds contents) (exits fatal) = exits fatal
  with_contents name (holds contents) (done kvs) = done (mapf name contents ++ kvs)

  unfoldable pub map_files : List (List ℕ) → Ended (List KeyValue)
  map_files [] = done []
  map_files (name ∷ names) = with_contents name (read name) (map_files names)

-- The program on the files that its arguments name, with `sort.Sort(ByKey(..))`.
module _ (mapf : List ℕ → List ℕ → List KeyValue) (reducef : List ℕ → List (List ℕ) → List ℕ)
    (read : List ℕ → Contents) (sort : List KeyValue → List KeyValue) where
  abbrev pub finish : Ended (List KeyValue) → Ended (Option (List (List ℕ × List ℕ)))
  finish (exits fatal) = exits fatal
  finish (done kvs) =
      let intermediate = sort kvs in done (reduce_groups reducef (length intermediate) intermediate)

  unfoldable pub sequential : List (List ℕ) → Ended (Option (List (List ℕ × List ℕ)))
  sequential [] = exits usage
  sequential (name ∷ names) = finish (map_files mapf read (name ∷ names))
