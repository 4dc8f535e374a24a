-- ===== src/Raft/Commit/Leader.antt =====
-- How a leader moves its commit index: leaderUpdateCommitIndex.
use model_lib.Prelude.{
  ℕ, ◌≤◌, ◌<◌, ◌≡◌, refl, sym, ap, subst, ap₂, ◌∙◌, ◌≢◌, inl, inr, true, false, ◌&&◌, ◌||◌, some,
  List, [], ◌∷◌, map, arith, if◌then◌else◌, if_true, if_false, Bool-cases, length, get_elem?,
  get_elem?-split, All,
}
use model_lib.Prelude.Go.{ok, bind_ok, or_panic, get}
use model_lib.Prelude.Int.{ℤ, minus_one, ◌≤ℤ◌, ◌<ℤ◌, leb_ℤ, ◌==ℤ◌, ==ℤ→≡, ==ℤ→≢, parts_of_eq}
use model_lib.Raft.Commit.{majority_index, send_committed_log_channel, is_nil, advance_commit}
use model_lib.Raft.Commit.Follower.{committed, Sends-IsWellFormed}
use model_lib.Raft.Commit.Quorum.{count_from, quorum_size, majority_index-quorum}
use model_lib.Raft.Commit.Send.{Sends, send_committed-Sends}
use model_lib.Raft.Log.{find_index}
use model_lib.Raft.Log.Contiguous.{last_index, find_index_inside}
use model_lib.Raft.State.{LogEntry, Raft, go_put_apply_ch_buffer, command_msg}
use model_lib.Raft.WellFormed.{IsWellFormed}

below_bound : (m b : ℤ) (xs : List ℤ) → All (λ x. x ≤ℤ b) xs → 0 < count_from m xs → m ≤ℤ b
below_bound m b [] h c = absurd (omega arith)
below_bound m b (x ∷ xs) h c = ground (arith, below_bound m b xs h.1)

module _ {C : Type 0} where
  -- The leader's bookkeeping: a match index for each of at least one peer, none behind the log.
  pub record Tracks (rf : Raft C) : Type 0 where
    pub some_peer : 0 < rf.peers
    pub match_length : length rf.match_index ≡ rf.peers
    pub match_bounded : All (λ m. m ≤ℤ last_index rf.snapshot_index rf.log) rf.match_index

  -- With `m` the largest index that a majority has reached: the leader commits up to `m` if that is
  -- new and the entry there is of the current term; otherwise nothing changes.
  pub data LeaderCommits (rf : Raft C) (m : ℤ) (rf' : Raft C) : Type 0 where
    not_new : m ≤ℤ rf.commit_index → rf' ≡ rf → LeaderCommits rf m rf'
    old_term :
        (e : LogEntry C) (k : ℕ)
        → get_elem? rf.log k ≡ some e
        → e.index ≡ m
        → e.term ≢ rf.current_term
        → rf' ≡ rf
        → LeaderCommits rf m rf'
    advances :
        (e : LogEntry C) (k : ℕ)
        → rf.commit_index <ℤ m
        → get_elem? rf.log k ≡ some e
        → e.index ≡ m
        → e.term ≡ rf.current_term
        → Sends rf.commit_index m (committed m rf) (ok rf')
        → LeaderCommits rf m rf'

  module _ (rf : Raft C) (m : ℤ) (at : majority_index rf.peers rf.match_index ≡ ok m) where
    advance_empty :
        (is_nil rf.log && rf.snapshot_index ==ℤ minus_one) ≡ true → advance_commit rf ≡ ok rf
    unfolding advance_commit
    advance_empty nothing = rw nothing

    advance_not_new :
        (is_nil rf.log && rf.snapshot_index ==ℤ minus_one) ≡ false
        → (m ==ℤ minus_one || leb_ℤ m rf.commit_index) ≡ true
        → advance_commit rf ≡ ok rf
    unfolding advance_commit
    advance_not_new something old = rw something (bind_ok _ at ∙ rw old)

    advance_new :
        (e : LogEntry C)
        → (is_nil rf.log && rf.snapshot_index ==ℤ minus_one) ≡ false
        → (m ==ℤ minus_one || leb_ℤ m rf.commit_index) ≡ false
        → get rf.log (find_index rf.log m) ≡ ok e
        → advance_commit rf ≡ (
            if e.term ==ℤ rf.current_term
            then send_committed_log_channel rf.commit_index m (committed m rf)
            else ok rf)
    unfolding advance_commit
    advance_new e something new read = rw something (bind_ok _ at ∙ rw new (bind_ok _ read))

  empty_log :
      (rf : Raft C)
      → (is_nil rf.log && rf.snapshot_index ==ℤ minus_one) ≡ true
      → last_index rf.snapshot_index rf.log ≡ minus_one
  empty_log rf h = nil_case rf.snapshot_index rf.log h
    where
      nil_case :
          (b : ℤ) (log : List (LogEntry C))
          → (is_nil log && b ==ℤ minus_one) ≡ true
          → last_index b log ≡ minus_one
      nil_case b [] h = ==ℤ→≡ b minus_one h
      nil_case b (e ∷ es) h = cc

  -- The new index is in the log, so the code reads its entry.
  advance_in_log :
      (rf : Raft C) (m : ℤ)
      → majority_index rf.peers rf.match_index ≡ ok m
      → m ≤ℤ last_index rf.snapshot_index rf.log
      → IsWellFormed rf
      → (is_nil rf.log && rf.snapshot_index ==ℤ minus_one) ≡ false
      → (m ==ℤ minus_one || leb_ℤ m rf.commit_index) ≡ false
      → (rf' : Raft C) × (advance_commit rf ≡ ok rf') × IsWellFormed rf' × LeaderCommits rf m rf'
  advance_in_log rf m at reached wf something new =
      let later : rf.commit_index <ℤ m = ground arith in
      let (k, f, found, _) =
        find_index_inside rf.snapshot_index m rf.log wf.log_contiguous
          (omega (arith, wf.commit_low)) reached in
      let e = f.entry in
      let position : get_elem? rf.log k ≡ some e =
        ap₂ (λ l (n : ℕ). get_elem? l n) f.split (sym f.at) ∙ get_elem?-split f.before f.after e in
      let step =
        advance_new rf m at e something new (ap (get rf.log) found ∙ ap or_panic position) in
      elim (Bool-cases (e.term ==ℤ rf.current_term)) [
        | inl current ↦
            let s =
              send_committed-Sends rf.commit_index m (committed m rf) wf.log_contiguous
                wf.snapshot_low wf.commit_low (omega arith) reached in
            let rf' = go_put_apply_ch_buffer (map command_msg s.entries) (committed m rf) in
            let s' = subst (Sends _ _ _) s.sent s in
            let wf' : IsWellFormed (committed m rf) = record {
              log_contiguous = wf.log_contiguous;
              snapshot_low = wf.snapshot_low;
              commit_low = omega (arith, wf.commit_low);
              commit_high = reached;
            } in
            (
              rf',
              step ∙ if_true _ _ current ∙ s.sent,
              (Sends-IsWellFormed _ _ _ rf' wf' s').0,
              advances e k later position f.has_index (==ℤ→≡ e.term rf.current_term current) s',
            )
        | inr other ↦ (
          rf,
          step ∙ if_false _ _ other,
          wf,
          old_term e k position f.has_index (==ℤ→≢ e.term rf.current_term other) refl,
        )
      ]

  advance_rule :
      (rf : Raft C) (m : ℤ)
      → majority_index rf.peers rf.match_index ≡ ok m
      → m ≤ℤ last_index rf.snapshot_index rf.log
      → IsWellFormed rf
      → (rf' : Raft C) × (advance_commit rf ≡ ok rf') × IsWellFormed rf' × LeaderCommits rf m rf'
  advance_rule rf m at reached wf =
      elim (Bool-cases (is_nil rf.log && rf.snapshot_index ==ℤ minus_one)) [
        | inl nothing ↦ (
          rf,
          advance_empty rf m at nothing,
          wf,
          not_new
              (omega (arith, parts_of_eq (empty_log rf nothing), wf.commit_low, wf.snapshot_low))
              refl,
        )
        | inr something ↦ elim (Bool-cases (m ==ℤ minus_one || leb_ℤ m rf.commit_index)) [
          | inl old ↦ (
            rf,
            advance_not_new rf m at something old,
            wf,
            not_new (ground (arith, wf.commit_low, wf.snapshot_low)) refl,
          )
          | inr new ↦ advance_in_log rf m at reached wf something new
        ]
      ]

  -- On a well-formed leader that has a match index for each peer, none behind its log, the update
  -- never panics, keeps the leader well-formed, and commits by the rule of `LeaderCommits` for the
  -- largest index that a majority has reached: up to that index, if it is new and the entry there
  -- is of the current term, and else nothing changes.
  pub advance_commit-LeaderCommits :
      (rf : Raft C)
      → IsWellFormed rf
      → Tracks rf
      → (m : ℤ) × (quorum_size rf.peers ≤ count_from m rf.match_index)
        × ((q : ℤ) → m <ℤ q → count_from q rf.match_index < quorum_size rf.peers)
        × (rf' : Raft C) × (advance_commit rf ≡ ok rf')
        × IsWellFormed rf'
        × LeaderCommits rf m rf'
  advance_commit-LeaderCommits rf wf tracks =
      let (m, found, quorum, largest) =
        majority_index-quorum rf.match_index (omega (arith, tracks.match_length)) in
      let at =
        subst (λ (n : ℕ). majority_index n rf.match_index ≡ ok m) tracks.match_length found in
      let reached =
        below_bound m (last_index rf.snapshot_index rf.log) rf.match_index tracks.match_bounded
          (omega (arith, quorum)) in
      let (rf', run, wf', rule) = advance_rule rf m at reached wf in
      (
        m,
        omega (arith, quorum, tracks.match_length),
        (λ q more. omega (arith, largest q more, tracks.match_length)),
        rf',
        run,
        wf',
        rule,
      )
