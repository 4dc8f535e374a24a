-- ===== src/Raft/Examples/Elections.antt =====
-- Elections among three peers.
use model_lib.Prelude.{ℕ, ◌≡◌, refl, ◌≢◌, ◌↔◌, true, false, none, [], arith}
use model_lib.Prelude.Go.{ok}
use model_lib.Prelude.Int.{pos, minus_one, ◌-ℤ◌, inc}
use model_lib.Raft.Append.{append_entries_request_handler}
use model_lib.Raft.Calls.{request_vote_call, append_entries_call, install_snapshot_call}
use model_lib.Raft.Commit.{follower_update_commit_index}
use model_lib.Raft.Examples.Data.{number_gob, fresh_peer, leading_peer, append_args}
use model_lib.Raft.FailedCall.{failed_call-ignored}
use model_lib.Raft.FollowerLog.{take_over, handle_match, follower_handle_log}
use model_lib.Raft.LateLeader.{late_leader}
use model_lib.Raft.Log.{find_index, get_last_log_index_and_term}
use model_lib.Raft.Persist.{persist}
use model_lib.Raft.Roles.{to_follower, to_candidate, to_leader}
use model_lib.Raft.State.{
  follower, candidate, leader, Raft, RequestVoteArgs, RequestVoteReply, AppendEntriesArgs,
  AppendEntriesReply, zero_vote_reply, zero_append_reply,
}
use model_lib.Raft.Vote.{behind, request_vote_request_handler, request_vote_response_handler}
use model_lib.Raft.Vote.Grant.{CanVote, request_vote-granted_iff}
use model_lib.Raft.Vote.TwoLeaders.{asked, two_leaders_one_term}

-- Peer 1 of term 0 asks for a vote in term 1.
abbrev vote_args : RequestVoteArgs
vote_args = record {
  term = pos 1;
  candidate_id = pos 1;
  last_log_index = minus_one;
  last_log_term = pos 0;
}

abbrev voter : Raft ℕ
voter = fresh_peer (pos 2)

-- The same candidate, before the last vote that it needs.
abbrev candidate_peer : Raft ℕ
candidate_peer = record (fresh_peer (pos 1)) {
  role = candidate;
  current_term = pos 1;
  vote_cnt = pos 1;
}

abbrev vote_reply : RequestVoteReply
vote_reply = record { term = pos 1; vote_granted = true }

request_vote-granted_iff_example :
    ((request_vote_request_handler (pos 9) voter vote_args zero_vote_reply).1.vote_granted ≡ true)
    ↔ (CanVote voter vote_args × (behind (get_last_log_index_and_term voter) vote_args ≡ false))
request_vote-granted_iff_example = request_vote-granted_iff (pos 9) voter vote_args zero_vote_reply

two_leaders_one_term_example :
    let a = fresh_peer (pos 0) in
    let b = fresh_peer (pos 1) in
    let c = fresh_peer (pos 2) in
    let (a1, args_a) = to_candidate (pos 9) 50 a in
    let (b1, args_b) = to_candidate (pos 9) 50 b in
    let a2 = (request_vote_response_handler a1 args_a (asked (pos 9) c args_a).1).0 in
    (a3 : Raft ℕ) × (to_leader a2 ≡ ok a3)
    × let b2 = (request_vote_response_handler b1 args_b (asked (pos 9) a3 args_b).1).0 in
      (b3 : Raft ℕ) × (to_leader b2 ≡ ok b3)
      × ((asked (pos 9) a3 args_b).0.role ≡ leader)
      × (b3.role ≡ leader)
      × ((asked (pos 9) a3 args_b).0.current_term ≡ b3.current_term)
unfolding to_candidate request_vote_request_handler to_follower get_last_log_index_and_term inc
two_leaders_one_term_example =
    two_leaders_one_term (pos 9) 50 (fresh_peer (pos 0)) (fresh_peer (pos 1)) (fresh_peer (pos 2))
      refl refl (omega arith) (omega arith) refl refl refl

failed_call-ignored_example :
    (request_vote_call none leading_peer vote_args ≡ (leading_peer, false))
    × (append_entries_call none leading_peer append_args ≡ ok (persist leading_peer))
    × (install_snapshot_call none leading_peer (record {
      term = pos 2;
      leader_id = pos 0;
      last_included_index = pos 0;
      last_included_term = pos 1;
      snapshot = [];
    })
        ≡ ok (persist leading_peer))
failed_call-ignored_example =
    failed_call-ignored leading_peer vote_args append_args
      (record {
        term = pos 2;
        leader_id = pos 0;
        last_included_index = pos 0;
        last_included_term = pos 1;
        snapshot = [];
      })
      (omega arith)

-- The leader of term 2 sends peer 1 a heartbeat.
abbrev heartbeat : AppendEntriesArgs ℕ
heartbeat = record {
  term = pos 2;
  leader_id = pos 0;
  prev_log_index = minus_one;
  prev_log_term = pos 0;
  entries = [];
  leader_commit = minus_one;
}

abbrev overtaken_peer : Raft ℕ
overtaken_peer = persist (record candidate_peer {
  role = follower;
  current_term = pos 2;
  vote_cnt = pos 2;
  last_heartbeat_time = pos 9;
})

abbrev heartbeat_reply : AppendEntriesReply
heartbeat_reply = record zero_append_reply {
  term = pos 2;
  success = true;
  server_id = pos 1;
  x_term = minus_one;
  x_index = minus_one;
}

late_leader_example :
    (overtaken_peer.role ≡ follower)
    × ((led : Raft ℕ) × (to_leader overtaken_peer ≡ ok led)
        × (led.role ≡ leader)
        × (led.current_term ≡ pos 2)
        × (candidate_peer.current_term ≢ led.current_term))
unfolding request_vote_response_handler append_entries_request_handler inc follower_handle_log
    get_last_log_index_and_term to_follower handle_match take_over ◌-ℤ◌ find_index
    follower_update_commit_index persist
late_leader_example =
    late_leader (pos 9) candidate_peer overtaken_peer vote_args vote_reply heartbeat
      zero_append_reply heartbeat_reply refl
      (record {
        log_contiguous = tt;
        snapshot_low = omega arith;
        commit_low = omega arith;
        commit_high = omega arith;
      })
      (record {
        entries_contiguous = tt;
        prev_low = omega arith;
        start = λ e. refl;
        prev_agrees = tt;
        entries_agree = tt;
      })
      (omega arith) refl (omega arith)
