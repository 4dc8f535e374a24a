-- ===== src/ShardKv/Examples.antt =====
-- A fresh clerk, which learns from the controller that group 100 serves every shard.
use model_lib.Prelude.{ℕ, ◌≡◌, refl, Option, none, some, List, [], ◌∷◌, replicate}
use model_lib.Prelude.Go.{ok}
use model_lib.Prelude.Int.{pos}
use model_lib.ShardCtrler.{n_shards, Config}
use model_lib.ShardKv.{
  shard_ok, shard_wrong_leader, ShardPutArgs, ShardPutReply, ShardGetArgs, ShardGetReply, key2shard,
  make_shard_clerk, shard_get,
}
use model_lib.ShardKv.Routing.{shard_get-returns}

abbrev learned : Config
learned = record {
  num = pos 1;
  shards = replicate n_shards (pos 100);
  groups = (pos 100, (1 ∷ []) ∷ (2 ∷ 2 ∷ []) ∷ []) ∷ [];
}

-- Server 1 does not lead, server 2 does.
abbrev group_get : ℕ → List ℕ → ShardGetArgs → Option ShardGetReply
group_get round (a ∷ b ∷ name) args = some (record { err = shard_ok; value = 5 ∷ [] })
group_get round _ args = some (record { err = shard_wrong_leader; value = [] })

abbrev group_put : ℕ → List ℕ → ShardPutArgs → Option ShardPutReply
group_put round (a ∷ b ∷ name) args = some (record { err = shard_ok })
group_put round _ args = none

shard_get-returns_example :
    (config : Config) × (value : List ℕ) × (shard_get
        (λ i. learned)
        group_get
        2
        (97 ∷ [])
        make_shard_clerk
      ≡ some (ok (config, value)))
unfolding make_shard_clerk key2shard
shard_get-returns_example =
    shard_get-returns (λ i. learned) group_get 0 (97 ∷ []) (5 ∷ []) make_shard_clerk refl
      (λ i. refl)
      (record {
        gid = pos 100;
        before = (1 ∷ []) ∷ [];
        name = 2 ∷ 2 ∷ [];
        after = [];
        owner = refl;
        group = refl;
        silent = (refl, tt);
        found = refl;
      })
