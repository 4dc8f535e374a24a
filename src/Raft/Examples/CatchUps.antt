-- ===== src/Raft/Examples/CatchUps.antt =====
-- A follower that catches up, and one that a snapshot makes panic.
use model_lib.Prelude.{ℕ, zero, suc, ◌≡◌, refl, false, [], ◌∷◌, arith}
use model_lib.Prelude.Go.{log_inconsistent, ok, panic}
use model_lib.Prelude.Int.{pos, minus_one, ◌-ℤ◌, inc}
use model_lib.Raft.Append.{append_entries_request_handler}
use model_lib.Raft.CatchUp.{Together, Round}
use model_lib.Raft.CatchUp.Crash.{refused-panics}
use model_lib.Raft.Examples.Data.{number_gob, number_entry, fresh_peer}
use model_lib.Raft.FollowerLog.{handle_conflict, follower_handle_log}
use model_lib.Raft.LeaderLog.{install_snapshot, request_for}
use model_lib.Raft.LeaderLog.Asks.{Continues}
use model_lib.Raft.LeaderLog.BackUp.{NoneOfTerm}
use model_lib.Raft.Log.{find_index, get_last_log_index_and_term}
use model_lib.Raft.Persist.{persist}
use model_lib.Raft.Roles.{to_follower}
use model_lib.Raft.Snapshot.{install_snapshot_request_handler}
use model_lib.Raft.State.{
  follower, leader, Raft, AppendEntriesArgs, AppendEntriesReply, InstallSnapshotArgs,
  zero_snapshot_reply,
}

-- Peer 0 leads term 3 and has compacted its log up to index 1.
abbrev compacted_leader : Raft ℕ
compacted_leader = record (fresh_peer (pos 0)) {
  role = leader;
  current_term = pos 3;
  snapshot = 7 ∷ [];
  snapshot_index = pos 1;
  snapshot_term = pos 2;
  commit_index = pos 2;
  log = number_entry (pos 2) (pos 2) 22 ∷ number_entry (pos 3) (pos 3) 23 ∷ [];
  next_index = pos 4 ∷ pos 3 ∷ pos 4 ∷ [];
  match_index = pos 3 ∷ minus_one ∷ pos 3 ∷ [];
}

-- Peer 1 once led term 1: it has two entries of it that were never committed.
abbrev stale_peer : Raft ℕ
stale_peer = record (fresh_peer (pos 1)) {
  current_term = pos 1;
  log =
      number_entry (pos 1) (pos 0) 10
      ∷ number_entry (pos 1) (pos 1) 91
      ∷ number_entry (pos 1) (pos 2) 92
      ∷ [];
  commit_index = pos 0;
}

abbrev first_request : AppendEntriesArgs ℕ
first_request = record {
  term = pos 3;
  leader_id = pos 0;
  prev_log_index = pos 2;
  prev_log_term = pos 2;
  entries = number_entry (pos 3) (pos 3) 23 ∷ [];
  leader_commit = pos 2;
}

-- Peer 1 after it has refused the first request.
abbrev refusing_peer : Raft ℕ
refusing_peer = persist (record stale_peer {
  role = follower;
  voted_for = minus_one;
  current_term = pos 3;
  last_heartbeat_time = pos 9;
  log = number_entry (pos 1) (pos 0) 10 ∷ number_entry (pos 1) (pos 1) 91 ∷ [];
})

abbrev refusal : AppendEntriesReply
refusal = record {
  term = pos 3;
  success = false;
  server_id = pos 1;
  x_term = pos 1;
  x_index = pos 0;
  x_len = pos 2;
}

compacted_leader-Together : Together compacted_leader stale_peer (pos 3)
unfolding inc
compacted_leader-Together = record {
  leads = record {
    log_contiguous = (refl, (refl, tt));
    snapshot_low = omega arith;
    commit_low = omega arith;
    commit_high = omega arith;
  };
  follows = record {
    log_contiguous = (refl, (refl, (refl, tt)));
    snapshot_low = omega arith;
    commit_low = omega arith;
    commit_high = omega arith;
  };
  newer = omega arith;
  next = refl;
  slot = (minus_one, refl);
  low = omega arith;
  reaches = omega arith;
  start = λ e. cc;
  agree = (
    ((λ e le. cc), ((λ e le. cc), tt)),
    (
      ((λ e le. cc), ((λ e le. cc), tt)),
      (((λ e le. absurd (omega arith)), ((λ e le. cc), tt)), tt),
    ),
  );
  agree_base = ((λ e le. cc), ((λ e le. absurd (omega arith)), ((λ e le. cc), tt)));
}

first_request-Continues : Continues compacted_leader (pos 3) first_request
unfolding inc
first_request-Continues = record {
  before = number_entry (pos 2) (pos 2) 22 ∷ [];
  term = refl;
  commit = refl;
  from = refl;
  split = refl;
  prev = refl;
  contiguous = (refl, tt);
  to_end = refl;
}

compacted_leader-NoneOfTerm : NoneOfTerm compacted_leader.log (pos 1) 2
compacted_leader-NoneOfTerm zero e lt at = λ same. cc
compacted_leader-NoneOfTerm (suc zero) e lt at = λ same. cc
compacted_leader-NoneOfTerm (suc (suc j)) e lt at = absurd (omega arith)

refused-panics_example :
    (led' : Raft ℕ) × (sent : InstallSnapshotArgs) × Round
      (pos 9)
      compacted_leader
      stale_peer
      led'
      refusing_peer
      first_request
      refusal
    × Together led' refusing_peer (pos 0)
    × (request_for led' (pos 1) ≡ ok (install_snapshot sent))
    × (install_snapshot_request_handler (pos 12) refusing_peer sent zero_snapshot_reply
        ≡ panic log_inconsistent)
unfolding append_entries_request_handler inc follower_handle_log get_last_log_index_and_term
    to_follower handle_conflict ◌-ℤ◌ find_index persist request_for
refused-panics_example =
    refused-panics (pos 9) (pos 12) compacted_leader stale_peer refusing_peer (pos 3) first_request
      refusal compacted_leader-Together first_request-Continues refl refl refl
      compacted_leader-NoneOfTerm (omega arith) (omega arith) ((λ e. cc), ((λ e same. cc), tt))

-- Peer 1 with one entry, which the leader has compacted away.
abbrev lagging_peer : Raft ℕ
lagging_peer = record (fresh_peer (pos 1)) {
  current_term = pos 1;
  log = number_entry (pos 1) (pos 0) 10 ∷ [];
  commit_index = pos 0;
}

abbrev backed_up_leader : Raft ℕ
backed_up_leader = record compacted_leader { next_index = pos 4 ∷ pos 1 ∷ pos 4 ∷ [] }
