-- ===== src/Raft/Examples/Followers.antt =====
-- A follower that takes over entries.
use model_lib.Prelude.{ℕ, ◌≡◌, refl, true, [], ◌∷◌, arith}
use model_lib.Prelude.Go.{ok}
use model_lib.Prelude.Int.{pos, minus_one}
use model_lib.Raft.Examples.Data.{
  number_gob, number_entry, leading_peer, following_peer, append_args, compacted_peer,
  leading_peer-IsWellFormed, following_peer-IsWellFormed, compacted_peer-IsWellFormed,
  append_args-Fits,
}
use model_lib.Raft.FollowerLog.{answer, overwrite, follower_handle_log}
use model_lib.Raft.FollowerLog.Cases.{Handled, follower_handle_log-Handled}
use model_lib.Raft.FollowerLog.FromStart.{follower_handle_log-from_start}
use model_lib.Raft.FollowerLog.Overwrite.{overwrite-reconcile}
use model_lib.Raft.State.{Raft, AppendEntriesArgs, zero_append_reply}
use model_lib.Raft.WellFormed.{IsWellFormed}

follower_handle_log-Handled_example :
    Handled following_peer append_args zero_append_reply
      (follower_handle_log following_peer append_args zero_append_reply)
follower_handle_log-Handled_example =
    follower_handle_log-Handled following_peer append_args zero_append_reply
      following_peer-IsWellFormed append_args-Fits

overwrite-reconcile_example :
    overwrite
      (number_entry (pos 1) (pos 0) 10
        ∷ number_entry (pos 0) (pos 1) 90
        ∷ number_entry (pos 0) (pos 2) 91
        ∷ [])
      (pos 1)
      (number_entry (pos 1) (pos 1) 11 ∷ [])
    ≡ ok (number_entry (pos 1) (pos 0) 10 ∷ number_entry (pos 1) (pos 1) 11 ∷ [])
overwrite-reconcile_example =
    overwrite-reconcile (number_entry (pos 1) (pos 0) 10 ∷ [])
      (number_entry (pos 0) (pos 1) 90 ∷ number_entry (pos 0) (pos 2) 91 ∷ [])
      (number_entry (pos 1) (pos 1) 11 ∷ []) (omega arith)

-- The leader's whole log, sent to peer 2, which has compacted its own up to index 1.
abbrev whole_log_args : AppendEntriesArgs ℕ
whole_log_args = record append_args {
  prev_log_index = minus_one;
  prev_log_term = pos 0;
  entries = leading_peer.log;
}

follower_handle_log-from_start_example :
    let rf' : Raft ℕ = record compacted_peer { log = leading_peer.log } in
    (follower_handle_log compacted_peer whole_log_args zero_append_reply
      ≡ ok (rf', answer zero_append_reply true minus_one minus_one 3))
    × ¬ IsWellFormed rf'
follower_handle_log-from_start_example =
    follower_handle_log-from_start compacted_peer whole_log_args zero_append_reply
      (number_entry (pos 1) (pos 0) 10)
      (number_entry (pos 1) (pos 1) 11 ∷ number_entry (pos 2) (pos 2) 12 ∷ [])
      compacted_peer-IsWellFormed (omega arith) refl refl leading_peer-IsWellFormed.log_contiguous
      (omega arith)
