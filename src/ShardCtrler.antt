-- ===== src/ShardCtrler.antt =====
-- The clerk of the shard controller: src/shardctrler/client.go and the data of src/shardctrler/common.go.
-- The servers are reached through labrpc: `call round s args` is what server `s` answers in that
-- round, `none` where `Call` returns false. A Go string is the list of its bytes.
pub mod Rounds
mod Examples
use model_lib.Prelude.{ℕ, zero, suc, Bool, Option, none, some, List, if◌then◌else◌}
use model_lib.Prelude.Int.{ℤ}

abbrev pub n_shards : ℕ
n_shards = 10

-- `shards` has n_shards elements. A map is an association list.
pub record Config : Type 0 where
  pub num : ℤ
  pub shards : List ℤ
  pub groups : List (ℤ × List (List ℕ))

pub record JoinArgs : Type 0 where
  pub servers : List (ℤ × List (List ℕ))

pub record JoinReply : Type 0 where
  pub wrong_leader : Bool
  pub err : List ℕ

pub record LeaveArgs : Type 0 where
  pub gids : List ℤ

pub record LeaveReply : Type 0 where
  pub wrong_leader : Bool
  pub err : List ℕ

pub record MoveArgs : Type 0 where
  pub shard : ℤ
  pub gid : ℤ

pub record MoveReply : Type 0 where
  pub wrong_leader : Bool
  pub err : List ℕ

pub record QueryArgs : Type 0 where
  pub num : ℤ

pub record QueryReply : Type 0 where
  pub wrong_leader : Bool
  pub err : List ℕ
  pub config : Config

-- `servers` is the number of servers.
pub record CtrlClerk : Type 0 where
  pub servers : ℕ

unfoldable pub make_ctrl_clerk : ℕ → CtrlClerk
make_ctrl_clerk servers = record { servers = servers }

module _ {R : Type 0} where
  -- The inner loop: the servers from `server` on, of which `left` are left.
  unfoldable pub try_each : (ℕ → Option R) → ℕ → ℕ → Option R
  try_each answer zero server = none
  try_each answer (suc left) server = elim (answer server) [
    | some r ↦ some r
    | none ↦ try_each answer left (suc server)
  ]

  -- The endless loop for at most `fuel` rounds, from the round with the number `round` on. `none`: the
  -- loop still runs.
  unfoldable pub rounds : (ℕ → ℕ → Option R) → ℕ → ℕ → ℕ → Option R
  rounds answer servers zero round = none
  rounds answer servers (suc fuel) round = elim (try_each (answer round) servers 0) [
    | some r ↦ some r
    | none ↦ rounds answer servers fuel (suc round)
  ]

-- `ok && reply.WrongLeader == false`, and what is then returned
abbrev pub query_verdict : Option QueryReply → Option Config
query_verdict none = none
query_verdict (some reply) = if reply.wrong_leader then none else some reply.config

abbrev pub join_verdict : Option JoinReply → Option (Unit {0})
join_verdict none = none
join_verdict (some reply) = if reply.wrong_leader then none else some tt

abbrev pub leave_verdict : Option LeaveReply → Option (Unit {0})
leave_verdict none = none
leave_verdict (some reply) = if reply.wrong_leader then none else some tt

abbrev pub move_verdict : Option MoveReply → Option (Unit {0})
move_verdict none = none
move_verdict (some reply) = if reply.wrong_leader then none else some tt

unfoldable pub query : (ℕ → ℕ → QueryArgs → Option QueryReply) → ℕ → ℤ → CtrlClerk → Option Config
query call fuel num ck =
    rounds (λ round s. query_verdict (call round s (record { num = num }))) ck.servers fuel 0

unfoldable pub join :
    (ℕ → ℕ → JoinArgs → Option JoinReply)
    → ℕ
    → List (ℤ × List (List ℕ))
    → CtrlClerk
    → Option (Unit {0})
join call fuel servers ck =
    rounds (λ round s. join_verdict (call round s (record { servers = servers }))) ck.servers fuel 0

unfoldable pub leave :
    (ℕ → ℕ → LeaveArgs → Option LeaveReply) → ℕ → List ℤ → CtrlClerk → Option (Unit {0})
leave call fuel gids ck =
    rounds (λ round s. leave_verdict (call round s (record { gids = gids }))) ck.servers fuel 0

unfoldable pub move_shard :
    (ℕ → ℕ → MoveArgs → Option MoveReply) → ℕ → ℤ → ℤ → CtrlClerk → Option (Unit {0})
move_shard call fuel shard gid ck =
    rounds (λ round s. move_verdict (call round s (record { shard = shard; gid = gid }))) ck.servers
      fuel 0
