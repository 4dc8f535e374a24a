-- ===== src/ShardKv.antt =====
-- The clerk of the sharded key/value service: src/shardkv/client.go and the data of src/shardkv/common.go.
-- A Go string is the list of its bytes. The servers are reached through labrpc: `call round name args`
-- is what the server with that name answers in that round of the clerk's loop, `none` where `Call`
-- returns false. `ask round` is what the clerk's Query to the shard controller returns after that
-- round.
pub mod Routing
mod Examples
use model_lib.KvRaft.{put_op, append_op}
use model_lib.Prelude.{
  ℕ, zero, suc, ◌%◌, Option, none, some, List, [], ◌∷◌, if◌then◌else◌, replicate,
}
use model_lib.Prelude.Go.{Outcome, ok, panic, ◌>>=◌, get}
use model_lib.Prelude.Int.{ℤ, pos, ◌==ℤ◌}
use model_lib.ShardCtrler.{n_shards, Config}

-- shardkv's own codes, replies and arguments.
pub data ShardErr : Type 0 where
  shard_ok shard_no_key shard_wrong_group shard_wrong_leader : ShardErr
  shard_other : List ℕ → ShardErr

pub record ShardPutArgs : Type 0 where
  pub key : List ℕ
  pub value : List ℕ
  pub op : List ℕ

pub record ShardPutReply : Type 0 where
  pub err : ShardErr

pub record ShardGetArgs : Type 0 where
  pub key : List ℕ

pub record ShardGetReply : Type 0 where
  pub err : ShardErr
  pub value : List ℕ

unfoldable pub key2shard : List ℕ → ℕ
key2shard [] = 0 % n_shards
key2shard (c ∷ key) = c % n_shards

-- `sm` and `make_end` stand behind `ask` and `call`.
pub record ShardClerk : Type 0 where
  pub config : Config

-- `config` is the zero value: number 0, each shard at group 0, no groups.
unfoldable pub make_shard_clerk : ShardClerk
make_shard_clerk = record {
  config = record { num = pos 0; shards = replicate n_shards (pos 0); groups = [] };
}

-- What an answer of a server does: the call returns, the loop over the servers is left, or it goes on.
pub data Step (R : Type 0) : Type 0 where
  returns : R → Step R
  breaks : Step R
  continues : Step R

abbrev pub get_step : Option ShardGetReply → Step (List ℕ)
get_step none = continues
get_step (some reply) = elim reply.err [
  | shard_ok ↦ returns reply.value
  | shard_no_key ↦ returns reply.value
  | shard_wrong_group ↦ breaks
  | shard_wrong_leader ↦ continues
  | shard_other _ ↦ continues
]

abbrev pub put_step : Option ShardPutReply → Step (Unit {0})
put_step none = continues
put_step (some reply) = elim reply.err [
  | shard_ok ↦ returns tt
  | shard_no_key ↦ continues
  | shard_wrong_group ↦ breaks
  | shard_wrong_leader ↦ continues
  | shard_other _ ↦ continues
]

abbrev pub lookup_group : ℤ → List (ℤ × List (List ℕ)) → Option (List (List ℕ))
lookup_group gid [] = none
lookup_group gid ((id, servers) ∷ groups) =
    let rest = lookup_group gid groups in if id ==ℤ gid then some servers else rest

module _ {R : Type 0} where
  -- The loop over the servers of the group.
  unfoldable pub try_group : (List ℕ → Step R) → List (List ℕ) → Option R
  try_group answer [] = none
  try_group answer (name ∷ servers) = elim (answer name) [
    | returns r ↦ some r
    | breaks ↦ none
    | continues ↦ try_group answer servers
  ]

  -- The part of a round before the sleep.
  abbrev pub try_config : (List ℕ → Step R) → ℕ → Config → Outcome (Option R)
  try_config answer shard config = get config.shards (pos shard) >>= λ gid.
      elim (lookup_group gid config.groups) [
        | none ↦ ok none
        | some servers ↦ ok (try_group answer servers)
      ]

  -- The endless loop of Get and PutAppend for at most `fuel` rounds. `none`: it still runs.
  unfoldable pub serve :
      (ℕ → Config) → (ℕ → List ℕ → Step R) → ℕ → ℕ → ℕ → Config → Option (Outcome (Config × R))
  serve ask answer shard zero round config = none
  serve ask answer shard (suc fuel) round config = elim (try_config (answer round) shard config) [
    | panic p ↦ some (panic p)
    | ok (some r) ↦ some (ok (config, r))
    | ok none ↦ serve ask answer shard fuel (suc round) (ask round)
  ]

-- The clerk's configuration afterwards, and the value.
unfoldable pub shard_get :
    (ℕ → Config)
    → (ℕ → List ℕ → ShardGetArgs → Option ShardGetReply)
    → ℕ
    → List ℕ
    → ShardClerk
    → Option (Outcome (Config × List ℕ))
shard_get ask call fuel key ck =
    serve ask (λ round name. get_step (call round name (record { key = key }))) (key2shard key) fuel
      0 ck.config

unfoldable pub shard_put_append :
    (ℕ → Config)
    → (ℕ → List ℕ → ShardPutArgs → Option ShardPutReply)
    → ℕ
    → List ℕ
    → List ℕ
    → List ℕ
    → ShardClerk
    → Option (Outcome (Config × Unit {0}))
shard_put_append ask call fuel key value op ck =
    serve ask
      (λ round name. put_step (call round name (record { key = key; value = value; op = op })))
      (key2shard key) fuel 0 ck.config

-- "Put" and "Append" are kvraft's words.
pub shard_put :
    (ℕ → Config)
    → (ℕ → List ℕ → ShardPutArgs → Option ShardPutReply)
    → ℕ
    → List ℕ
    → List ℕ
    → ShardClerk
    → Option (Outcome (Config × Unit {0}))
shard_put ask call fuel key value ck = shard_put_append ask call fuel key value put_op ck

pub shard_append :
    (ℕ → Config)
    → (ℕ → List ℕ → ShardPutArgs → Option ShardPutReply)
    → ℕ
    → List ℕ
    → List ℕ
    → ShardClerk
    → Option (Outcome (Config × Unit {0}))
shard_append ask call fuel key value ck = shard_put_append ask call fuel key value append_op ck
