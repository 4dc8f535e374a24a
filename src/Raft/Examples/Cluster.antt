-- ===== src/Raft/Examples/Cluster.antt =====
-- Instances of the theorems on durability and on clusters.
use model_lib.Prelude.{ℕ, ◌≡◌, refl, ◌⊎◌, Bool, false, some, List, [], ◌∷◌, arith, All}
use model_lib.Prelude.Go.{ok}
use model_lib.Prelude.Int.{ℤ, pos, ◌-ℤ◌, ◌≤ℤ◌, inc}
use model_lib.Raft.Cluster.{
  vote_request, vote_reply, Cluster, Event, ticks, delivers, with_peer, receive, happen, run_events,
}
use model_lib.Raft.Cluster.Diverge.{
  fresh_cluster, Undisturbed, handed, first_command, services_diverge,
}
use model_lib.Raft.Cluster.Recovery.{run_events-Recovers}
use model_lib.Raft.Examples.Data.{number_gob, number_gob-GobLaws, fresh_peer}
use model_lib.Raft.Log.{get_last_log_index_and_term}
use model_lib.Raft.Peer.{Happens, Lives}
use model_lib.Raft.Peer.Durable.{Happens-IsDurable, Recovers, Lives-Recovers, vote_answered-forgets}
use model_lib.Raft.Peer.Durable.Effects.{Unstored}
use model_lib.Raft.Peer.Durable.Restore.{IsDurable, persist-IsDurable}
use model_lib.Raft.Persist.{
  make_persister, clone, read_raft_state, save, read_snapshot, persist, read_persist,
  read_persist_snapshot,
}
use model_lib.Raft.Roles.{to_follower, to_candidate, ticker_round}
use model_lib.Raft.Service.{put_committed, put_restored, make}
use model_lib.Raft.State.{Raft, RequestVoteArgs, RequestVoteReply, zero_vote_reply}
use model_lib.Raft.Vote.{request_vote_request_handler, request_vote_response_handler}
use mathlib.Core.Option

abbrev three : Cluster ℕ
three = fresh_cluster

fresh-Recovers : All Recovers three.peers
fresh-Recovers = (born (pos 0), (born (pos 1), (born (pos 2), tt)))
  where
    born : (me : ℤ) → Recovers (fresh_peer me)
    born me =
        Lives-Recovers number_gob-GobLaws (pos 0) 0 3 me (fresh_peer me)
          (Lives.as_it_is (fresh_peer me))

-- Peer 2 asks for votes, and peer 0 answers.
abbrev asking : Raft ℕ × RequestVoteArgs
asking = to_candidate (pos 300) 0 (fresh_peer (pos 2))

abbrev asking_peer : Raft ℕ
asking_peer = asking.0

abbrev vote_args : RequestVoteArgs
vote_args = asking.1

abbrev answered_peer : Raft ℕ × RequestVoteReply
answered_peer =
    request_vote_request_handler (pos 301) (fresh_peer (pos 0)) vote_args zero_vote_reply

abbrev voted : Cluster ℕ
voted = record {
  peers = answered_peer.0 ∷ fresh_peer (pos 1) ∷ asking_peer ∷ [];
  sent = vote_request (pos 1) vote_args ∷ vote_reply (pos 2) vote_args (some answered_peer.1) ∷ [];
}

abbrev two_events : List (Event ℕ)
two_events = ticks 2 (pos 300) 0 ∷ delivers 0 (pos 301) ∷ []

vote_run : run_events two_events three ≡ ok voted
unfolding run_events happen with_peer receive ticker_round to_candidate inc ◌-ℤ◌
    get_last_log_index_and_term persist request_vote_request_handler to_follower
vote_run = refl

run_events-Recovers_example : All Recovers voted.peers
run_events-Recovers_example =
    run_events-Recovers number_gob-GobLaws two_events three voted fresh-Recovers vote_run

services_diverge_example :
    (events : List (Event ℕ)) × All Undisturbed events
    × (handed (run_events events fresh_cluster) ≡ first_command 10 ∷ first_command 20 ∷ [] ∷ [])
services_diverge_example = services_diverge 10 20

-- A life: peer 2 becomes a candidate, learns of term 5 from a reply, and crashes.
abbrev higher_reply : RequestVoteReply
higher_reply = record { term = pos 5; vote_granted = false }

candidate_step : Happens (fresh_peer (pos 2)) asking_peer
unfolding ticker_round to_candidate ◌-ℤ◌ inc
candidate_step = Happens.ticked (pos 300) 0 (some vote_args) refl

asking_peer-Recovers : Recovers asking_peer
asking_peer-Recovers = Lives-Recovers number_gob-GobLaws (pos 0) 0 3 (pos 2) asking_peer (
    Lives.goes_on (fresh_peer (pos 2)) asking_peer asking_peer candidate_step
      (Lives.as_it_is asking_peer))

asking_peer-IsDurable : IsDurable asking_peer
unfolding to_candidate
asking_peer-IsDurable = persist-IsDurable number_gob-GobLaws _

abbrev told : Raft ℕ × Bool
told = request_vote_response_handler asking_peer vote_args higher_reply

Happens-IsDurable_example :
    (asking_peer.current_term ≤ℤ told.0.current_term)
    × (IsDurable told.0 ⊎ Unstored asking_peer told.0)
Happens-IsDurable_example =
    Happens-IsDurable number_gob-GobLaws asking_peer told.0 asking_peer-IsDurable
      (Happens.vote_answered vote_args higher_reply told.1 refl)

abbrev back_again : Raft ℕ
back_again = record (fresh_peer (pos 2)) {
  persister = asking_peer.persister;
  current_term = pos 1;
  voted_for = pos 2;
}

told_restart : make (pos 0) 0 asking_peer.peers asking_peer.me told.0.persister ≡ some back_again
unfolding make to_candidate persist save clone inc get_last_log_index_and_term
    request_vote_response_handler to_follower read_raft_state read_snapshot read_persist
    read_persist_snapshot put_restored put_committed make_persister mathlib.Core.Option.bind
told_restart = refl

vote_answered-forgets_example :
    (told.0.current_term ≡ higher_reply.term)
    × (back_again.current_term ≡ asking_peer.current_term)
    × (back_again.voted_for ≡ asking_peer.voted_for)
unfolding to_candidate inc persist
vote_answered-forgets_example =
    vote_answered-forgets asking_peer back_again vote_args higher_reply (pos 0) 0
      asking_peer-IsDurable refl refl (omega arith) told_restart
