-- ===== src/Raft/ApplyQueue/Deadlock.antt =====
-- A wakeup of the apply buffer that is lost.
use model_lib.Prelude.{
  ◌≡◌, refl, subst, ◌∙◌, ◌≢◌, false, none, some, List, [], ◌∷◌, ◌++◌, All, All-right, All-left,
  All-append,
}
use model_lib.Raft.ApplyQueue.{
  Step, sends, stays, then_step, Thread, writer, reader, is_reader, Threads, wakes, starts,
  writer_waits, writes, reader_waits, Runs, queue_of,
}
use model_lib.Raft.Service.{put_apply_ch_buffer, get_apply_ch_buffer}
use model_lib.Raft.State.{ApplyMsg, Raft}

module _ {C : Type 0} where
  -- The buffer is full and no thread that could empty it is ready.
  pub record Stuck (q : Threads C) : Type 0 where
    pub full : q.peer.apply_ch_buffer ≢ []
    pub no_reader : All (λ (t : Thread C). is_reader t ≡ false) q.ready

  full_blocks :
      (rf : Raft C) (batch : List (ApplyMsg C)) (rf' : Raft C)
      → rf.apply_ch_buffer ≢ []
      → ¬ (put_apply_ch_buffer batch rf ≡ some rf')
  unfolding put_apply_ch_buffer
  full_blocks rf batch rf' full run = blocks rf.apply_ch_buffer full run
    where
      blocks :
          (buffer : List (ApplyMsg C))
          → buffer ≢ []
          → ¬ (
              (elim buffer [ [] ↦ some (record rf { apply_ch_buffer = batch }) | m ∷ rest ↦ none ])
              ≡ some rf')
      blocks [] f e = f refl
      blocks (m ∷ rest) f e = cc

  not_ready :
      (ready before after : List (Thread C))
      → All (λ (t : Thread C). is_reader t ≡ false) ready
      → ¬ (ready ≡ before ++ reader ∷ after)
  not_ready ready before after none_reads split =
      let here =
        (All-right (λ (t : Thread C). is_reader t ≡ false) before (reader ∷ after)
          (subst (All (λ (t : Thread C). is_reader t ≡ false)) split none_reads)).0 in
      cc

  Stuck-Step : {q q' : Threads C} → Step q q' → Stuck q → Stuck q' × (q'.sent ≡ q.sent)
  Stuck-Step (starts q batch) stuck = (
    record {
      full = stuck.full;
      no_reader = All-append _ q.ready (writer batch ∷ []) stuck.no_reader (refl, tt);
    },
    refl,
  )
  Stuck-Step (writer_waits q before after batch split blocked) stuck =
      let none_reads = subst (All (λ (t : Thread C). is_reader t ≡ false)) split stuck.no_reader in
      (
        record {
          full = stuck.full;
          no_reader =
              All-append _ before after (All-left _ before (writer batch ∷ after) none_reads)
                (All-right _ before (writer batch ∷ after) none_reads).1;
        },
        refl,
      )
  Stuck-Step (writes q before after waiting ready batch peer split run s) stuck =
      absurd (full_blocks q.peer batch peer stuck.full run)
  Stuck-Step (reader_waits q before after split blocked) stuck =
      absurd (not_ready q.ready before after stuck.no_reader split)
  Stuck-Step (sends q before after waiting ready peer msgs split run s) stuck =
      absurd (not_ready q.ready before after stuck.no_reader split)

  -- Whatever the threads do in a stuck state, and whatever goroutines start, nothing more is sent.
  pub Stuck-Runs : {q q' : Threads C} → Runs q q' → Stuck q → Stuck q' × (q'.sent ≡ q.sent)
  Stuck-Runs (stays q) stuck = (stuck, refl)
  Stuck-Runs (then_step q q' q'' step runs) stuck =
      let (stuck', same) = Stuck-Step step stuck in
      let (stuck'', same') = Stuck-Runs runs stuck' in (stuck'', same' ∙ same)

  -- Lost wakeup. Three batches, of which the first two are not empty, are handed to a peer with an
  -- empty buffer and a reader. There is a run that sends only the first batch and ends stuck: from
  -- there on every run sends nothing more. A Signal that is meant for the reader wakes a writer.
  pub lost_wakeup :
      (rf : Raft C) (m n : ApplyMsg C) (ms ns third : List (ApplyMsg C))
      → (q : Threads C) × Runs
          (queue_of rf (writer (m ∷ ms) ∷ writer (n ∷ ns) ∷ writer third ∷ []))
          q
        × (q.sent ≡ m ∷ ms)
        × ((q' : Threads C) → Runs q q' → q'.sent ≡ m ∷ ms)
  unfolding put_apply_ch_buffer get_apply_ch_buffer
  lost_wakeup rf m n ms ns third =
      let peer_of = λ (b : List (ApplyMsg C)). (record rf { apply_ch_buffer = b }) in
      let w1 : Thread C = writer (m ∷ ms) in
      let w2 : Thread C = writer (n ∷ ns) in
      let w3 : Thread C = writer third in
      let s0 = queue_of rf (w1 ∷ w2 ∷ w3 ∷ []) in
      let s1 : Threads C = record s0 { ready = w1 ∷ w2 ∷ w3 ∷ []; waiting = reader ∷ [] } in
      let s2 : Threads C = record s0 { peer = peer_of (m ∷ ms); ready = w2 ∷ w3 ∷ reader ∷ [] } in
      let s3 : Threads C = record s2 { ready = w3 ∷ reader ∷ []; waiting = w2 ∷ [] } in
      let s4 : Threads C = record s2 { ready = reader ∷ []; waiting = w2 ∷ w3 ∷ [] } in
      let s5 : Threads C = record s0 {
        ready = reader ∷ w2 ∷ [];
        waiting = w3 ∷ [];
        sent = m ∷ ms;
      } in
      let s6 : Threads C = record s5 { ready = w2 ∷ []; waiting = w3 ∷ reader ∷ [] } in
      let s7 : Threads C = record s5 {
        peer = peer_of (n ∷ ns);
        ready = w3 ∷ [];
        waiting = reader ∷ [];
      } in
      let stuck : Stuck s7 = record { full = λ e. cc; no_reader = (refl, tt) } in
      (
        s7,
        then_step s0 s1 s7 (reader_waits s0 [] _ refl refl) (
            then_step s1 s2 s7
              (writes s1 [] _ _ _ (m ∷ ms) _ refl refl (wakes [] [] (w2 ∷ w3 ∷ []) reader))
              (then_step s2 s3 s7 (writer_waits s2 [] _ (n ∷ ns) refl refl) (
                then_step s3 s4 s7 (writer_waits s3 [] _ third refl refl) (
                  then_step s4 s5 s7
                    (sends s4 [] [] _ _ _ _ refl refl (wakes [] (w3 ∷ []) (reader ∷ []) w2))
                    (then_step s5 s6 s7 (reader_waits s5 [] _ refl refl) (
                      then_step s6 s7 s7
                        (writes s6 [] [] _ _ (n ∷ ns) _ refl refl (wakes [] (reader ∷ []) [] w3))
                        (stays s7))))))),
        refl,
        λ q' runs. (Stuck-Runs runs stuck).1,
      )
