-- ===== src/Raft/Commit/Follower.antt =====
-- How a follower moves its commit index: followerUpdateCommitIndex.
use model_lib.Prelude.{
  ◌≡◌, refl, sym, ap, subst, ap₂, ◌∙◌, inl, inr, true, false, map, arith, if◌then◌else◌, if_false,
  Bool-cases,
}
use model_lib.Prelude.Go.{ok}
use model_lib.Prelude.Int.{ℤ, ◌≤ℤ◌, ◌<ℤ◌, ltb_ℤ, leb_ℤ, parts_of_eq}
use model_lib.Raft.Commit.{send_committed_log_channel, follower_update_commit_index}
use model_lib.Raft.Commit.Send.{Sends, send_committed-Sends}
use model_lib.Raft.Log.Contiguous.{last_index}
use model_lib.Raft.State.{Raft, go_put_apply_ch_buffer, command_msg}
use model_lib.Raft.Vote.{behind}
use model_lib.Raft.WellFormed.{IsWellFormed, IsWellFormed-same, get_last-last_index}

module _ {C : Type 0} where
  -- The smaller of the leader's commit index and the last index of the log.
  abbrev pub commit_target : ℤ → Raft C → ℤ
  commit_target leader_commit rf =
      let last = last_index rf.snapshot_index rf.log in
      if ltb_ℤ last leader_commit then last else leader_commit

  abbrev pub committed : ℤ → Raft C → Raft C
  committed new_commit rf = record rf { commit_index = new_commit; last_applied = new_commit }

  -- The peer stays as it is if it is not behind the leader's commit index; else it commits up to
  -- the target and sends the entries that this adds.
  pub data FollowerCommits (leader_commit : ℤ) (rf rf' : Raft C) : Type 0 where
    not_behind : leader_commit ≤ℤ rf.commit_index → rf' ≡ rf → FollowerCommits leader_commit rf rf'
    commits :
        rf.commit_index <ℤ leader_commit
        → Sends rf.commit_index
            (commit_target leader_commit rf)
            (committed (commit_target leader_commit rf) rf)
            (ok rf')
        → FollowerCommits leader_commit rf rf'

  -- The send keeps everything but the batches handed out.
  pub Sends-IsWellFormed :
      (prev cur : ℤ) (rf rf' : Raft C)
      → IsWellFormed rf
      → Sends prev cur rf (ok rf')
      → IsWellFormed rf'
        × (rf'.commit_index ≡ rf.commit_index)
        × (rf'.log ≡ rf.log)
        × (rf'.current_term ≡ rf.current_term)
        × (rf'.role ≡ rf.role)
        × (rf'.snapshot_index ≡ rf.snapshot_index)
  unfolding go_put_apply_ch_buffer
  Sends-IsWellFormed prev cur rf rf' wf s =
      let same : rf' ≡ go_put_apply_ch_buffer (map command_msg s.entries) rf = cc s.sent in
      rw same ((IsWellFormed-same _ _ refl refl refl wf), refl, refl, refl, refl, refl)

  follower_update_behind :
      (leader_commit : ℤ) (rf : Raft C)
      → leb_ℤ leader_commit rf.commit_index ≡ false
      → follower_update_commit_index leader_commit rf
        ≡ send_committed_log_channel rf.commit_index
            (commit_target leader_commit rf)
            (committed (commit_target leader_commit rf) rf)
  unfolding follower_update_commit_index
  follower_update_behind leader_commit rf later = rw later (
      ap
        (λ last.
          let new_commit = if ltb_ℤ last leader_commit then last else leader_commit in
          send_committed_log_channel rf.commit_index new_commit (committed new_commit rf))
        (get_last-last_index rf))

  follower_update_ahead :
      (leader_commit : ℤ) (rf : Raft C)
      → leb_ℤ leader_commit rf.commit_index ≡ true
      → follower_update_commit_index leader_commit rf ≡ ok rf
  unfolding follower_update_commit_index
  follower_update_ahead leader_commit rf ahead = rw ahead

  committed-IsWellFormed :
      (leader_commit : ℤ) (rf : Raft C)
      → IsWellFormed rf
      → rf.commit_index <ℤ leader_commit
      → IsWellFormed (committed (commit_target leader_commit rf) rf)
  committed-IsWellFormed leader_commit rf wf later = record {
    log_contiguous = wf.log_contiguous;
    snapshot_low = wf.snapshot_low;
    commit_low = ground arith;
    commit_high = ground arith;
  }

  -- On a well-formed peer the update never panics, keeps the peer well-formed, and commits by the
  -- rule of `FollowerCommits`: up to the smaller of the leader's commit index and the last index,
  -- if the peer is behind the leader.
  pub follower_update_commit_index-commits :
      (leader_commit : ℤ) (rf : Raft C)
      → IsWellFormed rf
      → (rf' : Raft C) × (follower_update_commit_index leader_commit rf ≡ ok rf')
        × IsWellFormed rf'
        × FollowerCommits leader_commit rf rf'
  follower_update_commit_index-commits leader_commit rf wf =
      elim (Bool-cases (leb_ℤ leader_commit rf.commit_index)) [
        | inl ahead ↦
            (rf, follower_update_ahead leader_commit rf ahead, wf, not_behind (ground arith) refl)
        | inr behind ↦
            let later : rf.commit_index <ℤ leader_commit = ground arith in
            let wf' = committed-IsWellFormed leader_commit rf wf later in
            let s =
              send_committed-Sends rf.commit_index (commit_target leader_commit rf)
                (committed (commit_target leader_commit rf) rf) wf.log_contiguous wf.snapshot_low
                wf.commit_low (ground (arith, wf.commit_high)) wf'.commit_high in
            let rf' =
              go_put_apply_ch_buffer (map command_msg s.entries)
                (committed (commit_target leader_commit rf) rf) in
            let s' = subst (Sends _ _ _) s.sent s in
            (
              rf',
              follower_update_behind leader_commit rf behind ∙ s.sent,
              (Sends-IsWellFormed _ _ _ rf' wf' s').0,
              commits later s',
            )
      ]

  -- What the update leaves alone, and the commit index that it sets.
  pub FollowerCommits-fields :
      (leader_commit : ℤ) (rf rf' : Raft C)
      → IsWellFormed rf
      → FollowerCommits leader_commit rf rf'
      → (rf'.log ≡ rf.log)
        × (rf'.snapshot_index ≡ rf.snapshot_index)
        × (rf'.current_term ≡ rf.current_term)
        × (rf'.role ≡ rf.role)
        × (rf.commit_index ≤ℤ rf'.commit_index)
        × (rf'.commit_index ≡ (
            if leb_ℤ leader_commit rf.commit_index
            then rf.commit_index
            else commit_target leader_commit rf'))
  FollowerCommits-fields leader_commit rf rf' wf (not_behind le same) =
      let ahead : leb_ℤ leader_commit rf.commit_index ≡ true = ground arith in
      rw (same, ahead) (refl, refl, refl, refl, omega arith, refl)
  FollowerCommits-fields leader_commit rf rf' wf (commits later s) =
      let behind : leb_ℤ leader_commit rf.commit_index ≡ false = ground arith in
      let wf' = committed-IsWellFormed leader_commit rf wf later in
      let (_, commit, log, term, role, base) = Sends-IsWellFormed _ _ _ rf' wf' s in
      let target : commit_target leader_commit rf' ≡ commit_target leader_commit rf =
        ap₂
          (λ l b.
            let last = last_index b l in if ltb_ℤ last leader_commit then last else leader_commit)
          log base in
      (
        log,
        base,
        term,
        role,
        ground (arith, parts_of_eq commit, wf.commit_high),
        commit ∙ sym target ∙ sym (if_false _ _ behind),
      )
