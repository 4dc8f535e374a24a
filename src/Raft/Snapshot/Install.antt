-- ===== src/Raft/Snapshot/Install.antt =====
-- Installing a leader's snapshot: InstallSnapshotRequestHandler.
use model_lib.Prelude.{
  ◌≡◌, refl, subst, ◌∙◌, inl, inr, true, false, not, ◌&&◌, arith, if◌then◌else◌, Bool-cases,
}
use model_lib.Prelude.Go.{Outcome, ok, bind_ok}
use model_lib.Prelude.Int.{ℤ, ◌≤ℤ◌, ◌<ℤ◌, ltb_ℤ, leb_ℤ, ◌==ℤ◌, eq_of_parts, ==ℤ→≡, parts_of_eq}
use model_lib.Raft.Persist.{Gob, persist}
use model_lib.Raft.Roles.{to_follower}
use model_lib.Raft.Snapshot.{install_snapshot_request_handler}
use model_lib.Raft.Snapshot.Take.{Consistent, Installed, take_snapshot_lem}
use model_lib.Raft.State.{Raft, InstallSnapshotArgs, InstallSnapshotReply}
use model_lib.Raft.WellFormed.{IsWellFormed, IsWellFormed-same}

module _ {C : Type 0} ⦃g : Gob C⦄ where
  -- The state in which the snapshot is taken.
  abbrev pub caught_up : ℤ → Raft C → InstallSnapshotArgs → Raft C
  caught_up now rf args =
      let rf1 : Raft C = record rf { last_heartbeat_time = now } in
      if ltb_ℤ rf1.current_term args.term then to_follower args.term rf1 else rf1

  pub caught_up_lem :
      (now : ℤ) (rf : Raft C) (args : InstallSnapshotArgs)
      → IsWellFormed rf
      → Consistent rf args
      → rf.current_term ≤ℤ args.term
      → let rf' = caught_up now rf args in
        IsWellFormed rf'
        × Consistent rf' args
        × (rf'.snapshot_index ≡ rf.snapshot_index)
        × (rf'.log ≡ rf.log)
        × (rf'.commit_index ≡ rf.commit_index)
        × (rf'.me ≡ rf.me)
        × (rf'.current_term ≡ args.term)
  unfolding to_follower
  caught_up_lem now rf args wf consistent le = elim (Bool-cases (ltb_ℤ rf.current_term args.term)) [
    | inl lower ↦ rw lower (
      IsWellFormed-same _ _ refl refl refl wf,
      record { snapshot_term = consistent.snapshot_term; entry_term = consistent.entry_term },
      refl,
      refl,
      refl,
      refl,
      refl,
    )
    | inr same ↦ rw same (
      IsWellFormed-same _ _ refl refl refl wf,
      record { snapshot_term = consistent.snapshot_term; entry_term = consistent.entry_term },
      refl,
      refl,
      refl,
      refl,
      eq_of_parts rf.current_term args.term (ground arith),
    )
  ]

  -- What a peer has done when it answers InstallSnapshot: it ignored an old term or a snapshot that
  -- it has already, or it took the snapshot.
  pub data InstallAnswer (now : ℤ) (rf : Raft C) (args : InstallSnapshotArgs)
      (result : Outcome (Raft C × InstallSnapshotReply)) : Type 0 where
    old_term :
        (reply : InstallSnapshotReply)
        → args.term <ℤ rf.current_term
        → result ≡ ok (persist rf, reply)
        → reply.term ≡ rf.current_term
        → InstallAnswer now rf args result
    already :
        (reply : InstallSnapshotReply)
        → args.last_included_index ≤ℤ rf.snapshot_index
        → result ≡ ok (persist (record rf { last_heartbeat_time = now }), reply)
        → reply.term ≡ rf.current_term
        → InstallAnswer now rf args result
    installed :
        (rf1 rf' : Raft C) (reply : InstallSnapshotReply)
        → rf1 ≡ caught_up now rf args
        → Installed rf1 args rf'
        → rf'.current_term ≡ args.term
        → result ≡ ok (persist rf', reply)
        → reply.term ≡ args.term
        → reply.server_id ≡ rf.me
        → InstallAnswer now rf args result

  no_inconsistency :
      (rf : Raft C) (args : InstallSnapshotArgs)
      → Consistent rf args
      → (rf.snapshot_index ==ℤ args.last_included_index
          && not (rf.snapshot_term ==ℤ args.last_included_term))
        ≡ false
  no_inconsistency rf args consistent =
      elim (Bool-cases (rf.snapshot_index ==ℤ args.last_included_index)) [
        | inl same ↦
            let e : (rf.snapshot_term ==ℤ args.last_included_term) ≡ true = ground (
              arith,
              parts_of_eq (
                  consistent.snapshot_term (==ℤ→≡ rf.snapshot_index args.last_included_index same)),
            ) in
            rw (same, e)
        | inr other ↦ rw other
      ]

  -- A well-formed peer answers every InstallSnapshot that is consistent with its own snapshot and
  -- log without a panic, by the rule of `InstallAnswer`: it ignores an old term or a snapshot that
  -- it has already, and else takes the snapshot in the leader's term, stays well-formed, keeps a
  -- suffix of its log, moves its commit index up to the snapshot at least, and reports the
  -- snapshot to the service.
  pub install_snapshot_request-answers :
      (now : ℤ) (rf : Raft C) (args : InstallSnapshotArgs) (reply : InstallSnapshotReply)
      → IsWellFormed rf
      → Consistent rf args
      → InstallAnswer now rf args (install_snapshot_request_handler now rf args reply)
  unfolding install_snapshot_request_handler
  install_snapshot_request-answers now rf args reply wf consistent =
      let no_panic = no_inconsistency rf args consistent in
      elim (Bool-cases (ltb_ℤ args.term rf.current_term)) [
        | inl old ↦
            old_term (record reply { server_id = rf.me; term = rf.current_term }) (ground arith)
              (rw (no_panic, old)) refl
        | inr current ↦ elim (Bool-cases (leb_ℤ args.last_included_index rf.snapshot_index)) [
          | inl have ↦
              already (record reply { server_id = rf.me; term = rf.current_term }) (ground arith)
                (rw (no_panic, current, have)) refl
          | inr new ↦
              let (wf1, consistent1, base, _, _, _, term) =
                caught_up_lem now rf args wf consistent (ground arith) in
              let rf1 = caught_up now rf args in
              let (rf', run, i) =
                take_snapshot_lem rf1 args wf1 consistent1 (ground (arith, parts_of_eq base)) in
              installed rf1 rf' (record reply { server_id = rf.me; term = rf'.current_term }) refl i
                (i.current_term ∙ term) (rw (no_panic, current, new) (bind_ok _ run))
                (i.current_term ∙ term) refl
        ]
      ]

  -- The third case alone, for a snapshot that is new to the peer.
  pub install_snapshot_request-installs :
      (now : ℤ) (rf : Raft C) (args : InstallSnapshotArgs) (reply : InstallSnapshotReply)
      → IsWellFormed rf
      → Consistent rf args
      → rf.current_term ≤ℤ args.term
      → rf.snapshot_index <ℤ args.last_included_index
      → (rf' : Raft C) × (reply' : InstallSnapshotReply) × Installed
          (caught_up now rf args)
          args
          rf'
        × (rf'.current_term ≡ args.term)
        × (install_snapshot_request_handler now rf args reply ≡ ok (persist rf', reply'))
        × (reply'.term ≡ args.term)
        × (reply'.server_id ≡ rf.me)
  install_snapshot_request-installs now rf args reply wf consistent le new =
      elim (install_snapshot_request-answers now rf args reply wf consistent) [
        | old_term reply' old _ _ ↦ absurd (omega arith)
        | already reply' have _ _ ↦ absurd (omega arith)
        | installed rf1 rf' reply' is i term run answered id ↦
            (rf', reply', subst (λ r. Installed r args rf') is i, term, run, answered, id)
      ]
