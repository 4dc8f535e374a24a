-- ===== src/Models/Examples.antt =====
-- A history on two keys.
use model_lib.Models.{KvInput, group_by_key, partition}
use model_lib.Models.Keys.{Ascending}
use model_lib.Models.Partition.{on_key, partition-on_key}
use model_lib.Prelude.{ℕ, ◌≡◌, refl, ◌≢◌, List, [], ◌∷◌, map, All}
use model_lib.Prelude.Strings.{sort_strings}
use mathlib.Core.List.{Memᴰ}

abbrev history : List KvInput
history =
    record { op = 1; key = 98 ∷ []; value = 1 ∷ [] }
    ∷ record { op = 1; key = 97 ∷ []; value = 2 ∷ [] }
    ∷ record { op = 2; key = 98 ∷ []; value = 3 ∷ [] }
    ∷ []

partition-on_key_example :
    (keys : List (List ℕ)) × (partition (λ v. v) history
      ≡ map (λ k. on_key (λ (v : KvInput). v) k history) keys)
    × Ascending keys
    × All (λ (v : KvInput). Memᴰ v.key keys) history
    × All (λ k. on_key (λ (v : KvInput). v) k history ≢ []) keys
partition-on_key_example = partition-on_key (λ v. v) history

-- The part of each key, by computing it.
partition-history :
    partition (λ v. v) history
    ≡ (record { op = 1; key = 97 ∷ []; value = 2 ∷ [] } ∷ [])
      ∷ (record { op = 1; key = 98 ∷ []; value = 1 ∷ [] }
          ∷ record { op = 2; key = 98 ∷ []; value = 3 ∷ [] }
          ∷ [])
      ∷ []
unfolding partition group_by_key sort_strings
partition-history = refl
