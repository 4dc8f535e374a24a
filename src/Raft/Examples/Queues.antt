-- ===== src/Raft/Examples/Queues.antt =====
-- The apply buffer of a peer with three batches.
use model_lib.Prelude.{ℕ, ◌≡◌, refl, [], ◌∷◌}
use model_lib.Prelude.Int.{pos}
use model_lib.Raft.ApplyQueue.{
  sends, stays, then_step, writer, reader, Threads, wakes_nobody, writes, Runs, queue_of,
}
use model_lib.Raft.ApplyQueue.Deadlock.{lost_wakeup}
use model_lib.Raft.ApplyQueue.Order.{batches_swap}
use model_lib.Raft.ApplyQueue.Whole.{Whole, writers_of, queue_of-Whole}
use model_lib.Raft.Examples.Data.{number_entry, leading_peer}
use model_lib.Raft.Service.{put_apply_ch_buffer, get_apply_ch_buffer}
use model_lib.Raft.State.{ApplyMsg, command_msg}

abbrev batch_of : ℕ → ApplyMsg ℕ
batch_of n = command_msg (number_entry (pos 1) (pos n) n)

lost_wakeup_example :
    (q : Threads ℕ) × Runs
      (queue_of leading_peer
        (writer (batch_of 0 ∷ []) ∷ writer (batch_of 1 ∷ []) ∷ writer (batch_of 2 ∷ []) ∷ []))
      q
    × (q.sent ≡ batch_of 0 ∷ [])
    × ((q' : Threads ℕ) → Runs q q' → q'.sent ≡ batch_of 0 ∷ [])
lost_wakeup_example = lost_wakeup leading_peer (batch_of 0) (batch_of 1) [] [] (batch_of 2 ∷ [])

batches_swap_example :
    (q : Threads ℕ) × Runs
      (queue_of leading_peer (writer (batch_of 0 ∷ []) ∷ writer (batch_of 1 ∷ []) ∷ []))
      q
    × (q.sent ≡ batch_of 1 ∷ batch_of 0 ∷ [])
batches_swap_example = batches_swap leading_peer (batch_of 0) (batch_of 1) [] []

-- The only batch is written and sent.
abbrev one_written : Threads ℕ
one_written = record (queue_of leading_peer []) {
  peer = record leading_peer { apply_ch_buffer = batch_of 0 ∷ [] };
}

abbrev one_sent : Threads ℕ
one_sent = record (queue_of leading_peer []) { sent = batch_of 0 ∷ [] }

queue_of-Whole_example : Whole ((batch_of 0 ∷ []) ∷ []) one_sent
unfolding put_apply_ch_buffer get_apply_ch_buffer
queue_of-Whole_example = queue_of-Whole leading_peer ((batch_of 0 ∷ []) ∷ []) one_sent (
    then_step (queue_of leading_peer (writers_of ((batch_of 0 ∷ []) ∷ []))) one_written one_sent
      (writes (queue_of leading_peer (writers_of ((batch_of 0 ∷ []) ∷ []))) (reader ∷ []) [] []
        (reader ∷ []) (batch_of 0 ∷ []) one_written.peer refl refl (wakes_nobody (reader ∷ [])))
      (then_step one_written one_sent one_sent
        (sends one_written [] [] [] (reader ∷ []) one_sent.peer (batch_of 0 ∷ []) refl refl
          (wakes_nobody (reader ∷ [])))
        (stays one_sent)))
