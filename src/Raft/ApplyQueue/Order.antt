-- ===== src/Raft/ApplyQueue/Order.antt =====
-- Batches of the apply buffer that overtake each other.
use model_lib.Prelude.{◌≡◌, refl, List, [], ◌∷◌, ◌++◌}
use model_lib.Raft.ApplyQueue.{
  sends, stays, then_step, Thread, writer, reader, Threads, wakes_nobody, writes, Runs, queue_of,
}
use model_lib.Raft.Service.{put_apply_ch_buffer, get_apply_ch_buffer}
use model_lib.Raft.State.{ApplyMsg, Raft}

module _ {C : Type 0} where
  -- Two batches that are not empty are handed to a peer with an empty buffer and a reader, one after
  -- the other. There is a run that sends both, the second before the first.
  pub batches_swap :
      (rf : Raft C) (m n : ApplyMsg C) (ms ns : List (ApplyMsg C))
      → (q : Threads C) × Runs (queue_of rf (writer (m ∷ ms) ∷ writer (n ∷ ns) ∷ [])) q
        × (q.sent ≡ (n ∷ ns) ++ m ∷ ms)
  unfolding put_apply_ch_buffer get_apply_ch_buffer
  batches_swap rf m n ms ns =
      let peer_of = λ (b : List (ApplyMsg C)). (record rf { apply_ch_buffer = b }) in
      let w1 : Thread C = writer (m ∷ ms) in
      let w2 : Thread C = writer (n ∷ ns) in
      let s0 = queue_of rf (w1 ∷ w2 ∷ []) in
      let s1 : Threads C = record s0 { peer = peer_of (n ∷ ns); ready = reader ∷ w1 ∷ [] } in
      let s2 : Threads C = record s0 { ready = reader ∷ w1 ∷ []; sent = n ∷ ns } in
      let s3 : Threads C = record s2 { peer = peer_of (m ∷ ms); ready = reader ∷ [] } in
      let s4 : Threads C = record s2 { ready = reader ∷ []; sent = (n ∷ ns) ++ m ∷ ms } in
      (
        s4,
        then_step s0 s1 s4
            (writes s0 (reader ∷ w1 ∷ []) [] _ _ (n ∷ ns) _ refl refl (wakes_nobody _))
            (then_step s1 s2 s4 (sends s1 [] (w1 ∷ []) _ _ _ _ refl refl (wakes_nobody _)) (
              then_step s2 s3 s4
                (writes s2 (reader ∷ []) [] _ _ (m ∷ ms) _ refl refl (wakes_nobody _))
                (then_step s3 s4 s4 (sends s3 [] [] _ _ _ _ refl refl (wakes_nobody _))
                  (stays s4)))),
        refl,
      )
