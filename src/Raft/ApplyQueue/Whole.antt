-- ===== src/Raft/ApplyQueue/Whole.antt =====
-- The apply buffer sends whole batches, each once.
use model_lib.Prelude.{
  ℕ, suc, ◌+◌, ◌≡◌, refl, sym, ap, subst, ◌∙◌, Bool, none, some, List, [], ◌∷◌, ◌++◌, append-nil,
  append_assoc, arith, if◌then◌else◌,
}
use model_lib.Raft.ApplyQueue.{
  Step, sends, stays, then_step, Thread, writer, reader, Threads, Signal, wakes_nobody, wakes,
  starts, writer_waits, writes, reader_waits, Runs, queue_of,
}
use model_lib.Raft.Service.{put_apply_ch_buffer, get_apply_ch_buffer}
use model_lib.Raft.State.{ApplyMsg, Raft}

module _ {C : Type 0} where
  abbrev pub concat : List (List (ApplyMsg C)) → List (ApplyMsg C)
  concat [] = []
  concat (batch ∷ batches) = batch ++ concat batches

  concat-snoc :
      (batches : List (List (ApplyMsg C))) (batch : List (ApplyMsg C))
      → concat (batches ++ batch ∷ []) ≡ concat batches ++ batch
  concat-snoc [] batch = append-nil batch
  concat-snoc (b ∷ batches) batch =
      ap (λ l. b ++ l) (concat-snoc batches batch) ∙ sym (append_assoc b (concat batches) batch)

  -- How many batches pass the test `p`, in a list and among the threads.
  abbrev pub count_batches : (List (ApplyMsg C) → Bool) → List (List (ApplyMsg C)) → ℕ
  count_batches p [] = 0
  count_batches p (batch ∷ batches) =
      let rest = count_batches p batches in if p batch then suc rest else rest

  abbrev pub pending : (List (ApplyMsg C) → Bool) → List (Thread C) → ℕ
  pending p [] = 0
  pending p (reader ∷ ts) = pending p ts
  pending p (writer batch ∷ ts) = let rest = pending p ts in if p batch then suc rest else rest

  count_batches-append :
      (p : List (ApplyMsg C) → Bool) (xs ys : List (List (ApplyMsg C)))
      → count_batches p (xs ++ ys) ≡ count_batches p xs + count_batches p ys
  count_batches-append p [] ys = omega arith
  count_batches-append p (x ∷ xs) ys = ground (arith, count_batches-append p xs ys)

  pending-append :
      (p : List (ApplyMsg C) → Bool) (xs ys : List (Thread C))
      → pending p (xs ++ ys) ≡ pending p xs + pending p ys
  pending-append p [] ys = omega arith
  pending-append p (reader ∷ xs) ys = pending-append p xs ys
  pending-append p (writer batch ∷ xs) ys = ground (arith, pending-append p xs ys)

  -- The batches `done`, in this order, are what has been sent and what is in the buffer; together with
  -- the threads' batches they are those of `started`, each as often.
  pub record Whole (started : List (List (ApplyMsg C))) (q : Threads C) : Type 0 where
    pub done : List (List (ApplyMsg C))
    pub content : q.sent ++ q.peer.apply_ch_buffer ≡ concat done
    pub each_once :
        (p : List (ApplyMsg C) → Bool)
        → count_batches p done + pending p q.ready + pending p q.waiting ≡ count_batches p started

  put-effect :
      (batch : List (ApplyMsg C)) (rf rf' : Raft C)
      → put_apply_ch_buffer batch rf ≡ some rf'
      → (rf.apply_ch_buffer ≡ []) × (rf'.apply_ch_buffer ≡ batch)
  unfolding put_apply_ch_buffer
  put-effect batch rf rf' run = by_buffer rf.apply_ch_buffer run
    where
      by_buffer :
          (buffer : List (ApplyMsg C))
          → (elim buffer [ [] ↦ some (record rf { apply_ch_buffer = batch }) | m ∷ rest ↦ none ])
            ≡ some rf'
          → (buffer ≡ []) × (rf'.apply_ch_buffer ≡ batch)
      by_buffer [] e =
          let same : (record rf { apply_ch_buffer = batch }) ≡ rf' = cc in
          (refl, ap (λ (r : Raft C). r.apply_ch_buffer) (sym same))
      by_buffer (m ∷ rest) e = cc

  abbrev taken_out : Raft C → List (ApplyMsg C) → Raft C × List (ApplyMsg C)
  taken_out rf msgs = (record rf { apply_ch_buffer = [] }, msgs)

  get-effect :
      (rf rf' : Raft C) (msgs : List (ApplyMsg C))
      → get_apply_ch_buffer rf ≡ some (rf', msgs)
      → (rf'.apply_ch_buffer ≡ []) × (msgs ≡ rf.apply_ch_buffer)
  unfolding get_apply_ch_buffer
  get-effect rf rf' msgs run = by_buffer rf.apply_ch_buffer run
    where
      by_buffer :
          (buffer : List (ApplyMsg C))
          → (elim buffer [ [] ↦ none | m ∷ rest ↦ some (taken_out rf (m ∷ rest)) ])
            ≡ some (rf', msgs)
          → (rf'.apply_ch_buffer ≡ []) × (msgs ≡ buffer)
      by_buffer [] e = cc
      by_buffer (m ∷ rest) e =
          let same : taken_out rf (m ∷ rest) ≡ (rf', msgs) = cc in
          (
            ap (λ (x : Raft C × List (ApplyMsg C)). x.0.apply_ch_buffer) (sym same),
            ap (λ (x : Raft C × List (ApplyMsg C)). x.1) (sym same),
          )

  pending-Signal :
      (p : List (ApplyMsg C) → Bool) {w r w' r' : List (Thread C)}
      → Signal w r w' r'
      → pending p w' + pending p r' ≡ pending p w + pending p r
  pending-Signal p (wakes_nobody ready) = refl
  pending-Signal p (wakes before after ready t) = omega (
    arith,
    pending-append p before (t ∷ after),
    pending-append p before after,
    pending-append p (t ∷ []) after,
    pending-append p ready (t ∷ []),
  )

  -- A thread that leaves the ready ones takes its batches along.
  leaves :
      (p : List (ApplyMsg C) → Bool) (t : Thread C) (ready before after : List (Thread C))
      → ready ≡ before ++ t ∷ after
      → pending p ready ≡ pending p (t ∷ []) + pending p (before ++ after)
  leaves p t ready before after split =
      ap (pending p) split
      ∙ omega (
        arith,
        pending-append p before (t ∷ after),
        pending-append p before after,
        pending-append p (t ∷ []) after,
      )

  -- The batches whose goroutines start in a step, and in a run.
  abbrev pub begun_in : {q q' : Threads C} → Step q q' → List (List (ApplyMsg C))
  begun_in (starts q batch) = batch ∷ []
  begun_in (writer_waits q before after batch split blocked) = []
  begun_in (writes q before after waiting ready batch peer split run s) = []
  begun_in (reader_waits q before after split blocked) = []
  begun_in (sends q before after waiting ready peer msgs split run s) = []

  abbrev pub begun : {q q' : Threads C} → Runs q q' → List (List (ApplyMsg C))
  begun (stays q) = []
  begun (then_step q q' q'' step runs) = begun runs ++ begun_in step

  Whole-Step :
      {q q' : Threads C} {started : List (List (ApplyMsg C))}
      → (step : Step q q') → Whole started q
      → Whole (begun_in step ++ started) q'
  Whole-Step {started} (starts q batch) w = record {
    done = w.done;
    content = w.content;
    each_once = λ p. ground (arith, w.each_once p, pending-append p q.ready (writer batch ∷ []));
  }
  Whole-Step {started} (writer_waits q before after batch split blocked) w = record {
    done = w.done;
    content = w.content;
    each_once = λ p. omega (
      arith,
      w.each_once p,
      leaves p (writer batch) q.ready before after split,
      pending-append p q.waiting (writer batch ∷ []),
    );
  }
  Whole-Step {started} (writes q before after waiting ready batch peer split run s) w =
      let (empty, filled) = put-effect batch q.peer peer run in
      record {
        done = w.done ++ batch ∷ [];
        content =
            ap (λ l. q.sent ++ l) filled
            ∙ ap (λ l. l ++ batch)
                (sym (append-nil q.sent) ∙ ap (λ l. q.sent ++ l) (sym empty) ∙ w.content)
            ∙ sym (concat-snoc w.done batch);
        each_once = λ p. ground (
          arith,
          w.each_once p,
          leaves p (writer batch) q.ready before after split,
          pending-Signal p s,
          count_batches-append p w.done (batch ∷ []),
        );
      }
  Whole-Step {started} (reader_waits q before after split blocked) w = record {
    done = w.done;
    content = w.content;
    each_once = λ p. omega (
      arith,
      w.each_once p,
      leaves p reader q.ready before after split,
      pending-append p q.waiting (reader ∷ []),
    );
  }
  Whole-Step {started} (sends q before after waiting ready peer msgs split run s) w =
      let (emptied, all) = get-effect q.peer peer msgs run in
      record {
        done = w.done;
        content =
            ap (λ l. (q.sent ++ msgs) ++ l) emptied
            ∙ append-nil (q.sent ++ msgs)
            ∙ ap (λ l. q.sent ++ l) all
            ∙ w.content;
        each_once = λ p. omega (arith, w.each_once p, ap (pending p) split, pending-Signal p s);
      }

  Whole-Runs :
      {q q' : Threads C} {started : List (List (ApplyMsg C))}
      → (runs : Runs q q') → Whole started q
      → Whole (begun runs ++ started) q'
  Whole-Runs (stays q) w = w
  Whole-Runs {started} (then_step q q' q'' step runs) w =
      subst (λ l. Whole l q'') (sym (append_assoc (begun runs) (begun_in step) started))
        (Whole-Runs runs (Whole-Step step w))

  abbrev pub writers_of : List (List (ApplyMsg C)) → List (Thread C)
  writers_of [] = []
  writers_of (batch ∷ batches) = writer batch ∷ writers_of batches

  pending-writers_of :
      (p : List (ApplyMsg C) → Bool) (batches : List (List (ApplyMsg C)))
      → pending p (writers_of batches) ≡ count_batches p batches
  pending-writers_of p [] = refl
  pending-writers_of p (batch ∷ batches) = ground (arith, pending-writers_of p batches)

  -- In every run from an empty buffer with a reader and the goroutines of some batches, what has been
  -- sent and what is in the buffer are whole batches, one behind the other. Together with those that
  -- goroutines still hold, they are the batches from the start and those that were handed over during
  -- the run, each as often: none is lost, torn apart or sent twice.
  pub queue_of-Whole :
      (rf : Raft C) (batches : List (List (ApplyMsg C))) (q : Threads C)
      → (runs : Runs (queue_of rf (writers_of batches)) q) → Whole (begun runs ++ batches) q
  queue_of-Whole rf batches q runs = Whole-Runs runs (record {
    done = [];
    content = refl;
    each_once = λ p. omega (arith, pending-writers_of p batches);
  })
