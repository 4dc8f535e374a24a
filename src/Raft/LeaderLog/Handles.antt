-- ===== src/Raft/LeaderLog/Handles.antt =====
-- What a leader makes of an answer to AppendEntries: leaderHandleLog.
use model_lib.Prelude.{
  ℕ, zero, suc, ◌<◌, ◌≡◌, sym, ap, ◌∙◌, ◌≢◌, true, false, List, [], ◌∷◌, arith, ltb, length,
  get_elem?, set, length-set, get_elem?-set_self, get_elem?-set_ne,
}
use model_lib.Prelude.Go.{ok, bind_ok, or_panic, get, put}
use model_lib.Prelude.Int.{
  ℤ, pos, negsuc, minus_one, ◌+ℤ◌, ◌-ℤ◌, ◌==ℤ◌, inc, eq_of_parts, ==ℤ_refl, parts_of_eq, ==ℤ_ne,
  int_laws,
}
use model_lib.Raft.LeaderLog.{back_up, leader_handle_log}
use model_lib.Raft.Log.Contiguous.{Contiguous, last_index, last_index_parts}
use model_lib.Raft.State.{Raft, AppendEntriesArgs, AppendEntriesReply}

-- The list after a write at `i`: position `i` holds the value and nothing else changes.
pub record Written (xs : List ℤ) (i v : ℤ) (ys : List ℤ) : Type 0 where
  pub written : put xs i v ≡ ok ys
  pub same_length : length ys ≡ length xs
  pub at : get ys i ≡ ok v
  pub elsewhere : (j : ℕ) → pos j ≢ i → get_elem? ys j ≡ get_elem? xs j

pub put-Written : (xs : List ℤ) (i v a : ℤ) → get xs i ≡ ok a → (ys : List ℤ) × Written xs i v ys
put-Written xs (pos n) v a read =
    let inside : n < length xs = in_range xs n a read in
    let test : ltb n (length xs) ≡ true = ground arith in
    (
      set xs n v,
      record {
        written = rw test;
        same_length = length-set xs n v;
        at = ap or_panic (get_elem?-set_self xs n v inside);
        elsewhere = λ j ne. get_elem?-set_ne xs n j v (λ e. ne (ap (λ (m : ℕ). pos m) (sym e)));
      },
    )
  where
    in_range : (xs : List ℤ) (n : ℕ) (a : ℤ) → get xs (pos n) ≡ ok a → n < length xs
    in_range [] n a e = cc
    in_range (x ∷ xs) zero a e = omega arith
    in_range (x ∷ xs) (suc n) a e = omega (arith, in_range xs n a e)
put-Written xs (negsuc n) v a read = cc

module _ {C : Type 0} where
  -- An answer whose request does not start at the next index is old, and is ignored.
  pub leader_handle_log-old :
      (rf : Raft C) (args : AppendEntriesArgs C) (reply : AppendEntriesReply) (n : ℤ)
      → get rf.next_index reply.server_id ≡ ok n
      → inc args.prev_log_index ≢ n
      → leader_handle_log rf args reply ≡ ok rf
  unfolding leader_handle_log
  leader_handle_log-old rf args reply n next old =
      let test : (args.prev_log_index ==ℤ n -ℤ pos 1) ≡ false =
        ==ℤ_ne args.prev_log_index (n -ℤ pos 1)
          (λ e. old (eq_of_parts (inc args.prev_log_index) n (omega (int_laws, parts_of_eq e)))) in
      bind_ok _ next ∙ rw test

  pub current_test :
      (args : AppendEntriesArgs C) (n : ℤ)
      → inc args.prev_log_index ≡ n
      → (args.prev_log_index ==ℤ n -ℤ pos 1) ≡ true
  current_test args n current =
      rw (eq_of_parts (n -ℤ pos 1) args.prev_log_index (omega (int_laws, parts_of_eq current)))
        (==ℤ_refl args.prev_log_index)

  -- A successful answer to a request with contiguous entries that starts at the server's next
  -- index: without a panic, the server's match index becomes the index of the request's last entry
  -- and its next index the one behind it, and nothing else changes.
  pub leader_handle_log-success :
      (rf : Raft C) (args : AppendEntriesArgs C) (reply : AppendEntriesReply) (n m : ℤ)
      → get rf.next_index reply.server_id ≡ ok n
      → get rf.match_index reply.server_id ≡ ok m
      → inc args.prev_log_index ≡ n
      → Contiguous args.prev_log_index args.entries
      → reply.success ≡ true
      → let last = last_index args.prev_log_index args.entries in
        (next_index : List ℤ) × (match_index : List ℤ) × Written rf.next_index reply.server_id
          (inc last)
          next_index
        × Written rf.match_index reply.server_id last match_index
        × (leader_handle_log rf args reply
            ≡ ok (record rf { next_index = next_index; match_index = match_index }))
  unfolding leader_handle_log
  leader_handle_log-success rf args reply n m next slot current h success =
      let last = last_index args.prev_log_index args.entries in
      let (next_index, wn) = put-Written rf.next_index reply.server_id (inc last) n next in
      let (match_index, wm) = put-Written rf.match_index reply.server_id last m slot in
      let len = last_index_parts args.prev_log_index args.entries h in
      let new : ℤ = args.prev_log_index +ℤ pos (length args.entries) +ℤ pos 1 in
      let new_is : inc last ≡ new = eq_of_parts (inc last) new (omega (int_laws, len)) in
      let match_is : last ≡ new -ℤ pos 1 =
        eq_of_parts last (new -ℤ pos 1) (omega (int_laws, len)) in
      (
        next_index,
        match_index,
        wn,
        wm,
        bind_ok _ next
            ∙ rw (current_test args n current, success)
                (bind_ok _ (ap (put rf.next_index reply.server_id) (sym new_is) ∙ wn.written)
                  ∙ bind_ok _
                      (ap (put rf.match_index reply.server_id) (sym match_is) ∙ wm.written)),
      )

  -- A failed answer without a term (XTerm -1), from a follower whose log was too short, to a
  -- request that starts at the server's next index: without a panic, only the next index changes,
  -- to the index that the follower named.
  pub leader_handle_log-too_short :
      (rf : Raft C) (args : AppendEntriesArgs C) (reply : AppendEntriesReply) (n : ℤ)
      → get rf.next_index reply.server_id ≡ ok n
      → inc args.prev_log_index ≡ n
      → reply.success ≡ false
      → reply.x_term ≡ minus_one
      → (next_index : List ℤ) × Written rf.next_index reply.server_id reply.x_index next_index
        × (leader_handle_log rf args reply ≡ ok (record rf { next_index = next_index }))
  unfolding leader_handle_log back_up
  leader_handle_log-too_short rf args reply n next current failed short =
      let (next_index, w) = put-Written rf.next_index reply.server_id reply.x_index n next in
      let test : (reply.x_term ==ℤ minus_one) ≡ true = ground (arith, parts_of_eq short) in
      (
        next_index,
        w,
        bind_ok _ next ∙ rw (current_test args n current, failed, test) (bind_ok _ w.written),
      )
