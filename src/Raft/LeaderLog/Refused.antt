-- ===== src/Raft/LeaderLog/Refused.antt =====
-- Where leaderHandleLog goes on after any failed answer.
use model_lib.Prelude.{
  ℕ, ◌<◌, ◌≡◌, refl, ◌≢◌, inl, inr, false, some, List, Bool-cases, length, get_elem?,
}
use model_lib.Prelude.Go.{ok, get}
use model_lib.Prelude.Int.{ℤ, minus_one, ◌==ℤ◌, inc, ==ℤ→≡, ==ℤ→≢}
use model_lib.Raft.LeaderLog.{leader_handle_log}
use model_lib.Raft.LeaderLog.BackUp.{BacksUp, no_such_term, behind_term, leader_handle_log-conflict}
use model_lib.Raft.LeaderLog.Handles.{Written, leader_handle_log-too_short}
use model_lib.Raft.State.{LogEntry, Raft, AppendEntriesArgs, AppendEntriesReply}
use model_lib.Raft.Vote.{behind}

module _ {C : Type 0} where
  -- The next index is the one the reply names, or lies behind one of the leader's own entries of the
  -- term that the reply names.
  pub data GoesOn (rf : Raft C) (reply : AppendEntriesReply) (next : ℤ) : Type 0 where
    where_named : next ≡ reply.x_index → GoesOn rf reply next
    behind_entry :
        (k : ℕ) (e : LogEntry C)
        → reply.x_term ≢ minus_one
        → k < length rf.log
        → get_elem? rf.log k ≡ some e
        → e.term ≡ reply.x_term
        → next ≡ inc e.index
        → GoesOn rf reply next

  BacksUp-GoesOn :
      (rf : Raft C) (reply : AppendEntriesReply) (next : ℤ)
      → reply.x_term ≢ minus_one
      → BacksUp rf reply next
      → GoesOn rf reply next
  BacksUp-GoesOn rf reply next term (no_such_term _ named) = where_named named
  BacksUp-GoesOn rf reply next term (behind_term k l behind) =
      behind_entry k l.entry term l.below l.at l.has_term behind

  -- A failed answer to a request that starts at the server's next index never makes the leader
  -- panic, whether or not it names a term, and changes only that server's next index.
  pub leader_handle_log-refused :
      (rf : Raft C) (args : AppendEntriesArgs C) (reply : AppendEntriesReply) (n : ℤ)
      → get rf.next_index reply.server_id ≡ ok n
      → inc args.prev_log_index ≡ n
      → reply.success ≡ false
      → (next : ℤ) × (next_index : List ℤ) × Written rf.next_index reply.server_id next next_index
        × (leader_handle_log rf args reply ≡ ok (record rf { next_index = next_index }))
        × GoesOn rf reply next
  leader_handle_log-refused rf args reply n next current failed =
      elim (Bool-cases (reply.x_term ==ℤ minus_one)) [
        | inl unnamed ↦
            let (next_index, w, run) =
              leader_handle_log-too_short rf args reply n next current failed
                (==ℤ→≡ reply.x_term minus_one unnamed) in
            (reply.x_index, next_index, w, run, where_named refl)
        | inr named ↦
            let term = ==ℤ→≢ reply.x_term minus_one named in
            let (goes, next_index, w, run, rule) =
              leader_handle_log-conflict rf args reply n next current failed term in
            (goes, next_index, w, run, BacksUp-GoesOn rf reply goes term rule)
      ]
