-- ===== src/Raft/State.antt =====
-- The data of src/raft: log entries, messages for the service, the state of one peer and the
-- arguments and replies of the three RPCs. `C` is the type behind a command's `interface{}`.
use model_lib.Prelude.{ℕ, Bool, true, false, Option, none, some, List, [], ◌∷◌, ◌++◌}
use model_lib.Prelude.Int.{ℤ, pos, minus_one, inc}

-- role: 0 follower, 1 candidate, 2 leader
pub data Role : Type 0 where
  follower candidate leader : Role

abbrev pub is_leader : Role → Bool
is_leader leader = true
is_leader _ = false

abbrev pub is_candidate : Role → Bool
is_candidate candidate = true
is_candidate _ = false

pub record LogEntry (C : Type 0) : Type 0 where
  pub term : ℤ
  pub index : ℤ
  pub command : C

-- A command of `none` is Go's nil.
pub record ApplyMsg (C : Type 0) : Type 0 where
  pub command_valid : Bool
  pub command : Option C
  pub command_index : ℤ
  pub snapshot_valid : Bool
  pub snapshot : List ℕ
  pub snapshot_term : ℤ
  pub snapshot_index : ℤ

pub record Persister : Type 0 where
  pub raftstate : List ℕ
  pub snapshot : List ℕ

-- `peers` is the number of peers. `apply_goroutines` holds the arguments of the calls
-- `go rf.putApplyChBuffer(..)` that have been made and have not yet run, oldest first.
pub record Raft (C : Type 0) : Type 0 where
  pub peers : ℕ
  pub persister : Persister
  pub me : ℤ
  pub dead : Bool
  pub current_term : ℤ
  pub voted_for : ℤ
  pub log : List (LogEntry C)
  pub commit_index : ℤ
  pub last_applied : ℤ
  pub next_index : List ℤ
  pub match_index : List ℤ
  pub role : Role
  pub last_heartbeat_time : ℤ
  pub election_timeout : ℤ
  pub vote_cnt : ℤ
  pub apply_ch_buffer : List (ApplyMsg C)
  pub apply_goroutines : List (List (ApplyMsg C))
  pub snapshot : List ℕ
  pub snapshot_index : ℤ
  pub snapshot_term : ℤ

pub record RequestVoteArgs : Type 0 where
  pub term : ℤ
  pub candidate_id : ℤ
  pub last_log_index : ℤ
  pub last_log_term : ℤ

pub record RequestVoteReply : Type 0 where
  pub term : ℤ
  pub vote_granted : Bool

pub record AppendEntriesArgs (C : Type 0) : Type 0 where
  pub term : ℤ
  pub leader_id : ℤ
  pub prev_log_index : ℤ
  pub prev_log_term : ℤ
  pub entries : List (LogEntry C)
  pub leader_commit : ℤ

pub record AppendEntriesReply : Type 0 where
  pub term : ℤ
  pub success : Bool
  pub server_id : ℤ
  pub x_term : ℤ
  pub x_index : ℤ
  pub x_len : ℤ

pub record InstallSnapshotArgs : Type 0 where
  pub term : ℤ
  pub leader_id : ℤ
  pub last_included_index : ℤ
  pub last_included_term : ℤ
  pub snapshot : List ℕ

pub record InstallSnapshotReply : Type 0 where
  pub term : ℤ
  pub server_id : ℤ

-- The zero values that a caller passes as the reply, which stay when the call fails.
abbrev pub zero_vote_reply : RequestVoteReply
zero_vote_reply = record { term = pos 0; vote_granted = false }

abbrev pub zero_append_reply : AppendEntriesReply
zero_append_reply = record {
  term = pos 0;
  success = false;
  server_id = pos 0;
  x_term = pos 0;
  x_index = pos 0;
  x_len = pos 0;
}

abbrev pub zero_snapshot_reply : InstallSnapshotReply
zero_snapshot_reply = record { term = pos 0; server_id = pos 0 }

module _ {C : Type 0} where
  -- `go rf.putApplyChBuffer(msgs)`
  unfoldable pub go_put_apply_ch_buffer : List (ApplyMsg C) → Raft C → Raft C
  go_put_apply_ch_buffer msgs rf = record rf { apply_goroutines = rf.apply_goroutines ++ msgs ∷ [] }

  -- The message for a committed entry, and the one for the peer's snapshot.
  abbrev pub command_msg : LogEntry C → ApplyMsg C
  command_msg e = record {
    command_valid = true;
    command = some e.command;
    command_index = inc e.index;
    snapshot_valid = false;
    snapshot = [];
    snapshot_term = pos 0;
    snapshot_index = pos 0;
  }

  abbrev pub snapshot_msg : Raft C → ApplyMsg C
  snapshot_msg rf = record {
    command_valid = false;
    command = none;
    command_index = minus_one;
    snapshot_valid = true;
    snapshot = rf.snapshot;
    snapshot_term = rf.snapshot_term;
    snapshot_index = inc rf.snapshot_index;
  }
