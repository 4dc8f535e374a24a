-- ===== src/Raft/Cluster/Diverge.antt =====
-- A run of three fresh peers in which two services are given different commands at one index.
use model_lib.Prelude.{◌≡◌, refl, List, [], ◌∷◌, ◌++◌, map, arith, All}
use model_lib.Prelude.Go.{Outcome, ok, panic}
use model_lib.Prelude.Int.{ℤ, pos, ◌+ℤ◌, ◌-ℤ◌, inc}
use model_lib.Raft.Append.{
  append_entries_request_handler, append_entries_response_handler, leader_send_append_entries_rpc,
  leader_ticker_round,
}
use model_lib.Raft.Calls.{request_vote_call, append_entries_call}
use model_lib.Raft.Cluster.{
  Cluster, Event, ticks, delivers, loses, broadcasts, submits, compacts, crashes, with_peer,
  receive, happen, run_events,
}
use model_lib.Raft.Commit.{
  sort_ints, majority_index, collect, sent_position, send_committed_log_channel,
  follower_update_commit_index, advance_commit, leader_update_commit_index,
}
use model_lib.Raft.FollowerLog.{take_over, handle_match, follower_handle_log}
use model_lib.Raft.LeaderLog.{leader_handle_log, request_for}
use model_lib.Raft.Log.{find_index, get_last_log_index_and_term}
use model_lib.Raft.Persist.{Gob, make_persister, save, persist}
use model_lib.Raft.Roles.{to_follower, to_candidate, to_leader, ticker_round}
use model_lib.Raft.Service.{raft_start, blank}
use model_lib.Raft.State.{ApplyMsg, Raft, go_put_apply_ch_buffer, command_msg}
use model_lib.Raft.Vote.{request_vote_request_handler, request_vote_response_handler}

module _ {C : Type 0} ⦃g : Gob C⦄ where
  abbrev pub new_peer : ℤ → Raft C
  new_peer me = blank (pos 0) 0 3 me make_persister

  abbrev pub fresh_cluster : Cluster C
  fresh_cluster = record {
    peers = new_peer (pos 0) ∷ new_peer (pos 1) ∷ new_peer (pos 2) ∷ [];
    sent = [];
  }

  -- Both peers 0 and 1 ask for votes; peer 2 votes for peer 0, which becomes leader, votes for peer 1
  -- and so makes it leader of the same term.
  abbrev pub elections : List (Event C)
  elections =
      ticks 0 (pos 300) 0
      ∷ ticks 1 (pos 300) 0
      ∷ delivers 1 (pos 301)
      ∷ delivers 3 (pos 302)
      ∷ delivers 3 (pos 303)
      ∷ delivers 1 (pos 304)
      ∷ delivers 2 (pos 305)
      ∷ delivers 2 (pos 306)
      ∷ []

  -- Each takes a command, replicates it to peer 2 and commits it.
  abbrev pub commits : C → C → List (Event C)
  commits x y =
      submits 0 x
      ∷ submits 1 y
      ∷ broadcasts 0
      ∷ delivers 3 (pos 310)
      ∷ delivers 3 (pos 311)
      ∷ broadcasts 0
      ∷ broadcasts 1
      ∷ delivers 6 (pos 312)
      ∷ delivers 6 (pos 313)
      ∷ broadcasts 1
      ∷ []

  abbrev pub Undisturbed : Event C → Type 0
  Undisturbed (loses n) = ⊥
  Undisturbed (crashes i now random) = ⊥
  Undisturbed (ticks i now random) = Unit {0}
  Undisturbed (delivers n now) = Unit {0}
  Undisturbed (broadcasts i) = Unit {0}
  Undisturbed (submits i command) = Unit {0}
  Undisturbed (compacts i index bytes) = Unit {0}

  -- What each peer has handed to its service when the run has ended.
  abbrev pub handed : Outcome (Cluster C) → List (List (List (ApplyMsg C)))
  handed (ok q) = map (λ rf. rf.apply_goroutines) q.peers
  handed (panic p) = []

  -- A command as the first of a service: at index 1, of term 1.
  abbrev pub first_command : C → List (List (ApplyMsg C))
  first_command c = (command_msg (record { term = pos 1; index = pos 0; command = c }) ∷ []) ∷ []

  -- Two services diverge. Whatever two commands the services of two peers are given, there is a run
  -- of three fresh peers, in which no peer crashes and no call fails, after which the first peer has handed
  -- the one command to its service at index 1, and the second peer the other one at index 1.
  pub services_diverge :
      (x y : C)
      → (events : List (Event C)) × All Undisturbed events
        × (handed (run_events events fresh_cluster) ≡ first_command x ∷ first_command y ∷ [] ∷ [])
  unfolding run_events happen with_peer receive ticker_round to_candidate persist save
      request_vote_request_handler request_vote_call request_vote_response_handler to_leader
      to_follower raft_start leader_ticker_round leader_update_commit_index advance_commit
      majority_index sort_ints send_committed_log_channel sent_position collect
      go_put_apply_ch_buffer leader_send_append_entries_rpc request_for
      append_entries_request_handler append_entries_call append_entries_response_handler
      leader_handle_log follower_handle_log handle_match take_over follower_update_commit_index
      get_last_log_index_and_term find_index inc ◌+ℤ◌ ◌-ℤ◌
  services_diverge x y = (elections ++ commits x y, omega arith, refl)
