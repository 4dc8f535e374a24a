-- ===== src/Raft/LeaderLog/BackUp.antt =====
-- Where a leader goes back to when a follower's entry conflicts: the XTerm search of leaderHandleLog.
use model_lib.Prelude.{
  ℕ, zero, suc, ◌≤◌, ◌<◌, ◌≡◌, refl, sym, ap, ◌∙◌, ◌≢◌, ◌⊎◌, inl, inr, false, some, List, arith,
  if_false, Bool-cases, length, get_elem?, get_elem?-lt,
}
use model_lib.Prelude.Go.{ok, bind_ok, or_panic, get}
use model_lib.Prelude.Int.{ℤ, pos, minus_one, ◌==ℤ◌, inc, ==ℤ→≡, ==ℤ→≢, pos-==ℤ-minus_one, ==ℤ_ne}
use model_lib.Raft.LeaderLog.{last_of_term, back_up, leader_handle_log}
use model_lib.Raft.LeaderLog.Handles.{Written, put-Written, current_test}
use model_lib.Raft.State.{LogEntry, Raft, AppendEntriesArgs, AppendEntriesReply}

module _ {C : Type 0} where
  -- No entry below position `n` has the term.
  abbrev pub NoneOfTerm : List (LogEntry C) → ℤ → ℕ → Type 0
  NoneOfTerm log term n =
      (j : ℕ) (e : LogEntry C) → j < n → get_elem? log j ≡ some e → e.term ≢ term

  -- The entry at position `k` is the last one below position `n` with the term.
  pub record LastOfTerm (log : List (LogEntry C)) (term : ℤ) (n k : ℕ) : Type 0 where
    pub entry : LogEntry C
    pub at : get_elem? log k ≡ some entry
    pub below : k < n
    pub has_term : entry.term ≡ term
    pub later : (j : ℕ) (e : LogEntry C) → k < j → j < n → get_elem? log j ≡ some e → e.term ≢ term

  still_none :
      (log : List (LogEntry C)) (term : ℤ) (n : ℕ) (e : LogEntry C)
      → get_elem? log n ≡ some e
      → e.term ≢ term
      → (j : ℕ) (e' : LogEntry C) → j < suc n
      → (j < n → e'.term ≢ term)
      → get_elem? log j ≡ some e'
      → e'.term ≢ term
  still_none log term n e at differs j e' le below read =
      let split : (j < n) ⊎ (j ≡ n) = omega arith in
      elim split [
        | inl lt ↦ below lt
        | inr same ↦ λ q.
            let at' : get_elem? log n ≡ some e' = ap (get_elem? log) (sym same) ∙ read in
            let e≡ : e ≡ e' = cc in differs (ap (λ (x : LogEntry C). x.term) e≡ ∙ q)
      ]

  -- The downward search finds the last entry with the term, or -1 if there is none.
  pub last_of_term_cases :
      (log : List (LogEntry C)) (term : ℤ) (n : ℕ)
      → n ≤ length log
      → ((last_of_term log term n ≡ ok minus_one) × NoneOfTerm log term n)
        ⊎ ((k : ℕ) × (last_of_term log term n ≡ ok (pos k)) × LastOfTerm log term n k)
  unfolding last_of_term
  last_of_term_cases log term zero h = inl (refl, λ j e lt. absurd (omega arith))
  last_of_term_cases log term (suc n) h =
      let (e, at) = get_elem?-lt log n (omega arith) in
      elim (Bool-cases (e.term ==ℤ term)) [
        | inl same ↦ inr (
          n,
          bind_ok _ (ap or_panic at) ∙ rw same,
          record {
            entry = e;
            at = at;
            below = omega arith;
            has_term = ==ℤ→≡ e.term term same;
            later = λ j x lt le. absurd (omega arith);
          },
        )
        | inr differs ↦
            let other = ==ℤ→≢ e.term term differs in
            elim (last_of_term_cases log term n (omega arith)) [
              | inl (run, none_below) ↦ inl (
                bind_ok _ (ap or_panic at) ∙ rw differs run,
                λ j x lt read.
                    still_none log term n e at other j x lt (λ l. none_below j x l read) read,
              )
              | inr (k, run, l) ↦ inr (
                k,
                bind_ok _ (ap or_panic at) ∙ rw differs run,
                record {
                  entry = l.entry;
                  at = l.at;
                  below = omega (arith, l.below);
                  has_term = l.has_term;
                  later = λ j x lt le read.
                      still_none log term n e at other j x le (λ b. l.later j x lt b read) read;
                },
              )
            ]
      ]

  -- Where the leader goes on after a conflict with a follower's entry of the term XTerm: behind its
  -- own last entry of that term, or at XIndex if it has none.
  pub data BacksUp (rf : Raft C) (reply : AppendEntriesReply) (next : ℤ) : Type 0 where
    no_such_term :
        NoneOfTerm rf.log reply.x_term (length rf.log)
        → next ≡ reply.x_index
        → BacksUp rf reply next
    behind_term :
        (k : ℕ)
        → (l : LastOfTerm rf.log reply.x_term (length rf.log) k) → next ≡ inc l.entry.index
        → BacksUp rf reply next

  back_up-BacksUp :
      (rf : Raft C) (reply : AppendEntriesReply)
      → reply.x_term ≢ minus_one
      → (next : ℤ) × (back_up rf.log reply ≡ ok next) × BacksUp rf reply next
  unfolding back_up
  back_up-BacksUp rf reply named =
      let test : (reply.x_term ==ℤ minus_one) ≡ false = ==ℤ_ne reply.x_term minus_one named in
      elim (last_of_term_cases rf.log reply.x_term (length rf.log) (omega arith)) [
        | inl (run, none_there) ↦
            (reply.x_index, rw test (bind_ok _ run), no_such_term none_there refl)
        | inr (k, run, l) ↦ (
          inc l.entry.index,
          rw test (bind_ok _ run ∙ rw (pos-==ℤ-minus_one k) (bind_ok _ (ap or_panic l.at))),
          behind_term k l refl,
        )
      ]

  -- A failed answer that names a term, to a request that starts at the server's next index, never
  -- makes the leader panic: it only writes the next index, which goes behind the leader's own last
  -- entry of that term, or to XIndex if the leader has no entry of it.
  pub leader_handle_log-conflict :
      (rf : Raft C) (args : AppendEntriesArgs C) (reply : AppendEntriesReply) (n : ℤ)
      → get rf.next_index reply.server_id ≡ ok n
      → inc args.prev_log_index ≡ n
      → reply.success ≡ false
      → reply.x_term ≢ minus_one
      → (next : ℤ) × (next_index : List ℤ) × Written rf.next_index reply.server_id next next_index
        × (leader_handle_log rf args reply ≡ ok (record rf { next_index = next_index }))
        × BacksUp rf reply next
  unfolding leader_handle_log
  leader_handle_log-conflict rf args reply n next current failed named =
      let (new_next, run, rule) = back_up-BacksUp rf reply named in
      let (next_index, w) = put-Written rf.next_index reply.server_id new_next n next in
      (
        new_next,
        next_index,
        w,
        bind_ok _ next
            ∙ rw (current_test args n current)
                (if_false _ _ failed ∙ bind_ok _ run ∙ bind_ok _ w.written),
        rule,
      )
