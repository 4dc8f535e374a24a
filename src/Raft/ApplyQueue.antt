-- ===== src/Raft/ApplyQueue.antt =====
-- The apply buffer and its threads: putApplyChBuffer and getApplyChBuffer of src/raft/raft.go as steps. A
-- step is what a thread does between locking applyChMu and releasing it, in Wait or in Unlock. All
-- threads wait on one condition, and Signal wakes any one of them.
pub mod Order
pub mod Deadlock
pub mod Whole
use model_lib.Prelude.{◌≡◌, Bool, true, false, none, some, List, [], ◌∷◌, ◌++◌}
use model_lib.Raft.Service.{put_apply_ch_buffer, get_apply_ch_buffer}
use model_lib.Raft.State.{ApplyMsg, Raft}

-- A goroutine of putApplyChBuffer with its batch, or the one of getApplyChBuffer.
pub data Thread (C : Type 0) : Type 0 where
  writer : List (ApplyMsg C) → Thread C
  reader : Thread C

abbrev pub is_reader : {C : Type 0} → Thread C → Bool
is_reader (writer batch) = false
is_reader reader = true

-- `ready` are the threads that want the lock, `waiting` those in Wait, `sent` is what has gone to
-- applyCh, whose receiver takes every message.
pub record Threads (C : Type 0) : Type 0 where
  pub peer : Raft C
  pub ready : List (Thread C)
  pub waiting : List (Thread C)
  pub sent : List (ApplyMsg C)

module _ {C : Type 0} where
  -- `applyChCond.Signal()`, from the threads that wait and are ready to those afterwards.
  pub data Signal
      : List (Thread C) → List (Thread C) → List (Thread C) → List (Thread C) → Type 0 where
    wakes_nobody : (ready : List (Thread C)) → Signal [] ready [] ready
    wakes :
        (before after ready : List (Thread C)) (t : Thread C)
        → Signal (before ++ t ∷ after) ready (before ++ after) (ready ++ t ∷ [])

  pub data Step : Threads C → Threads C → Type 0 where
    starts :
        (q : Threads C) (batch : List (ApplyMsg C))
        → Step q (record q { ready = q.ready ++ writer batch ∷ [] })
    writer_waits :
        (q : Threads C) (before after : List (Thread C)) (batch : List (ApplyMsg C))
        → q.ready ≡ before ++ writer batch ∷ after
        → put_apply_ch_buffer batch q.peer ≡ none
        → Step q (record q { ready = before ++ after; waiting = q.waiting ++ writer batch ∷ [] })
    writes :
        (q : Threads C) (before after waiting ready : List (Thread C)) (batch : List (ApplyMsg C))
        (peer : Raft C)
        → q.ready ≡ before ++ writer batch ∷ after
        → put_apply_ch_buffer batch q.peer ≡ some peer
        → Signal q.waiting (before ++ after) waiting ready
        → Step q (record q { peer = peer; ready = ready; waiting = waiting })
    reader_waits :
        (q : Threads C) (before after : List (Thread C))
        → q.ready ≡ before ++ reader ∷ after
        → get_apply_ch_buffer q.peer ≡ none
        → Step q (record q { ready = before ++ after; waiting = q.waiting ++ reader ∷ [] })
    sends :
        (q : Threads C) (before after waiting ready : List (Thread C)) (peer : Raft C)
        (msgs : List (ApplyMsg C))
        → q.ready ≡ before ++ reader ∷ after
        → get_apply_ch_buffer q.peer ≡ some (peer, msgs)
        → Signal q.waiting (before ++ reader ∷ after) waiting ready
        → Step q (record { peer = peer; ready = ready; waiting = waiting; sent = q.sent ++ msgs })

  pub data Runs : Threads C → Threads C → Type 0 where
    stays : (q : Threads C) → Runs q q
    then_step : (q q' q'' : Threads C) → Step q q' → Runs q' q'' → Runs q q''

  -- A peer whose buffer is empty and whose reader has just started.
  abbrev pub queue_of : Raft C → List (Thread C) → Threads C
  queue_of rf writers = record {
    peer = record rf { apply_ch_buffer = [] };
    ready = reader ∷ writers;
    waiting = [];
    sent = [];
  }
