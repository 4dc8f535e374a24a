-- ===== src/Raft/Examples/Leaders.antt =====
-- A leader that replicates and commits.
use model_lib.Prelude.{ℕ, ◌≤◌, ◌<◌, ◌≡◌, refl, true, List, [], ◌∷◌, arith, All}
use model_lib.Prelude.Go.{ok}
use model_lib.Prelude.Int.{ℤ, pos, minus_one, ◌-ℤ◌, ◌<ℤ◌, inc}
use model_lib.Raft.Append.{
  append_entries_request_handler, requests_for, leader_send_append_entries_rpc,
}
use model_lib.Raft.Commit.{majority_index, follower_update_commit_index, advance_commit}
use model_lib.Raft.Commit.Leader.{Tracks, LeaderCommits, advance_commit-LeaderCommits}
use model_lib.Raft.Commit.Quorum.{count_from, quorum_size, majority_index-quorum}
use model_lib.Raft.Examples.Data.{
  number_gob, number_entry, leading_peer, following_peer, success_reply, leading_peer-IsWellFormed,
}
use model_lib.Raft.FollowerLog.{take_over, handle_match, follower_handle_log}
use model_lib.Raft.LeaderLog.{Request, request_for}
use model_lib.Raft.Log.{find_index, get_last_log_index_and_term}
use model_lib.Raft.Persist.{persist}
use model_lib.Raft.Roles.{to_follower}
use model_lib.Raft.Service.{raft_start}
use model_lib.Raft.Service.Start.{Started, raft_start-Started}
use model_lib.Raft.StaleLeader.{NamesLeader, stale_leader-broadcasts}
use model_lib.Raft.State.{
  follower, Raft, AppendEntriesArgs, AppendEntriesReply, zero_append_reply, command_msg,
}
use model_lib.Raft.WellFormed.{IsWellFormed}

-- Peer 1 after it has taken over the leader's entries and committed up to index 1.
abbrev replicated_peer : Raft ℕ
replicated_peer = persist (record following_peer {
  role = follower;
  voted_for = minus_one;
  current_term = pos 2;
  last_heartbeat_time = pos 9;
  log = leading_peer.log;
  commit_index = pos 1;
  last_applied = pos 1;
  apply_goroutines = (command_msg (number_entry (pos 1) (pos 1) 11) ∷ []) ∷ [];
})

leading_peer-Tracks : Tracks leading_peer
leading_peer-Tracks = record {
  some_peer = omega arith;
  match_length = refl;
  match_bounded = (omega arith, (omega arith, (omega arith, tt)));
}

advance_commit-LeaderCommits_example :
    (m : ℤ) × (quorum_size 3 ≤ count_from m leading_peer.match_index)
    × ((q : ℤ) → m <ℤ q → count_from q leading_peer.match_index < quorum_size 3)
    × (rf' : Raft ℕ) × (advance_commit leading_peer ≡ ok rf')
    × IsWellFormed rf'
    × LeaderCommits leading_peer m rf'
advance_commit-LeaderCommits_example =
    advance_commit-LeaderCommits leading_peer leading_peer-IsWellFormed leading_peer-Tracks

majority_index-quorum_example :
    (m : ℤ) × (majority_index 3 (pos 5 ∷ pos 1 ∷ pos 3 ∷ []) ≡ ok m)
    × (quorum_size 3 ≤ count_from m (pos 5 ∷ pos 1 ∷ pos 3 ∷ []))
    × ((q : ℤ) → m <ℤ q → count_from q (pos 5 ∷ pos 1 ∷ pos 3 ∷ []) < quorum_size 3)
majority_index-quorum_example = majority_index-quorum (pos 5 ∷ pos 1 ∷ pos 3 ∷ []) (omega arith)

raft_start-Started_example :
    (rf' : Raft ℕ) × (index : ℤ) × (raft_start 13 leading_peer ≡ ok (rf', (index, pos 2, true)))
    × Started 13 leading_peer rf' index
raft_start-Started_example =
    raft_start-Started 13 leading_peer (pos 2) (pos 3) leading_peer-IsWellFormed refl refl refl

-- Peer 0 has tested that it leads term 2 when a request of term 3 comes in.
abbrev newer_args : AppendEntriesArgs ℕ
newer_args = record {
  term = pos 3;
  leader_id = pos 2;
  prev_log_index = pos 2;
  prev_log_term = pos 2;
  entries = [];
  leader_commit = pos 1;
}

abbrev stepped_down : Raft ℕ
stepped_down = persist (record leading_peer {
  role = follower;
  current_term = pos 3;
  voted_for = minus_one;
  last_heartbeat_time = pos 9;
})

abbrev newer_reply : AppendEntriesReply
newer_reply = record success_reply { term = pos 3; server_id = pos 0 }

newer_answered :
    append_entries_request_handler (pos 9) leading_peer newer_args zero_append_reply
    ≡ ok (stepped_down, newer_reply)
unfolding append_entries_request_handler to_follower follower_handle_log handle_match take_over
    follower_update_commit_index find_index get_last_log_index_and_term inc ◌-ℤ◌
newer_answered = refl

abbrev stale_requests : List (ℤ × Request ℕ)
stale_requests =
    (
      pos 1,
      Request.append_entries (record {
        term = pos 3;
        leader_id = pos 0;
        prev_log_index = pos 0;
        prev_log_term = pos 1;
        entries = number_entry (pos 1) (pos 1) 11 ∷ number_entry (pos 2) (pos 2) 12 ∷ [];
        leader_commit = pos 1;
      }),
    )
    ∷ (
      pos 2,
      Request.append_entries (record {
        term = pos 3;
        leader_id = pos 0;
        prev_log_index = pos 2;
        prev_log_term = pos 2;
        entries = [];
        leader_commit = pos 1;
      }),
    )
    ∷ []

stale_sent : leader_send_append_entries_rpc stepped_down ≡ ok stale_requests
unfolding leader_send_append_entries_rpc requests_for request_for persist find_index inc ◌-ℤ◌
stale_sent = refl

stale_leader-broadcasts_example :
    (stepped_down.role ≡ follower) × All (NamesLeader (pos 0) (pos 3)) stale_requests
stale_leader-broadcasts_example =
    stale_leader-broadcasts (pos 9) leading_peer stepped_down newer_args newer_reply stale_requests
      (omega arith) newer_answered stale_sent
