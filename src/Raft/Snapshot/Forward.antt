-- ===== src/Raft/Snapshot/Forward.antt =====
-- What a leader makes of an answer to InstallSnapshot: InstallSnapshotResponseHandler.
use model_lib.Prelude.{
  ◌≡◌, refl, ◌∙◌, ◌⊎◌, inl, inr, true, false, not, ◌||◌, List, arith, if◌then◌else◌, Bool-cases,
}
use model_lib.Prelude.Go.{ok, bind_ok, get}
use model_lib.Prelude.Int.{ℤ, ◌≤ℤ◌, ◌<ℤ◌, ltb_ℤ, leb_ℤ, ◌==ℤ◌, inc, parts_of_eq}
use model_lib.Raft.LeaderLog.Handles.{Written, put-Written}
use model_lib.Raft.Persist.{Gob, persist}
use model_lib.Raft.Snapshot.{install_snapshot_response_handler}
use model_lib.Raft.State.{Raft, InstallSnapshotArgs, InstallSnapshotReply}
use model_lib.Raft.Vote.TwoLeaders.{asked}

module _ {C : Type 0} ⦃g : Gob C⦄ where
  -- An answer to the snapshot from a server that is not known to have reached its end.
  pub install_snapshot_response-moves :
      (rf : Raft C) (args : InstallSnapshotArgs) (reply : InstallSnapshotReply) (m n : ℤ)
      → args.term ≡ rf.current_term
      → reply.term ≡ rf.current_term
      → get rf.match_index reply.server_id ≡ ok m
      → get rf.next_index reply.server_id ≡ ok n
      → m <ℤ args.last_included_index
      → (next_index : List ℤ) × (match_index : List ℤ) × Written rf.next_index reply.server_id
          (inc args.last_included_index)
          next_index
        × Written rf.match_index reply.server_id args.last_included_index match_index
        × (install_snapshot_response_handler rf args reply
            ≡ ok (persist (record rf { next_index = next_index; match_index = match_index })))
  unfolding install_snapshot_response_handler
  install_snapshot_response-moves rf args reply m n asked answered slot next lower =
      let last = args.last_included_index in
      let (next_index, wn) = put-Written rf.next_index reply.server_id (inc last) n next in
      let (match_index, wm) = put-Written rf.match_index reply.server_id last m slot in
      let fresh : (not (rf.current_term ==ℤ args.term) || ltb_ℤ reply.term rf.current_term)
          ≡ false =
        ground (arith, parts_of_eq asked, parts_of_eq answered) in
      let current : ltb_ℤ rf.current_term reply.term ≡ false =
        ground (arith, parts_of_eq answered) in
      let behind_it : leb_ℤ last m ≡ false = ground arith in
      (
        next_index,
        match_index,
        wn,
        wm,
        rw (fresh, current)
            (bind_ok _ slot ∙ rw behind_it (bind_ok _ wn.written ∙ bind_ok _ wm.written)),
      )

  -- An answer of the leader's own term moves the server's match index to the snapshot's end, and its
  -- next index behind it, if the match index is lower; it never moves the match index back.
  pub install_snapshot_response-forward :
      (rf : Raft C) (args : InstallSnapshotArgs) (reply : InstallSnapshotReply) (m n : ℤ)
      → args.term ≡ rf.current_term
      → reply.term ≡ rf.current_term
      → get rf.match_index reply.server_id ≡ ok m
      → get rf.next_index reply.server_id ≡ ok n
      → (rf' : Raft C) × (m' : ℤ) × (install_snapshot_response_handler rf args reply ≡ ok rf')
        × (rf'.log ≡ rf.log)
        × (get rf'.match_index reply.server_id ≡ ok m')
        × (get rf'.next_index reply.server_id ≡ ok (if ltb_ℤ m m' then inc m' else n))
        × (m ≤ℤ m')
        × (args.last_included_index ≤ℤ m')
        × ((m' ≡ m) ⊎ (m' ≡ args.last_included_index))
  unfolding install_snapshot_response_handler persist
  install_snapshot_response-forward rf args reply m n asked answered slot next =
      let fresh : (not (rf.current_term ==ℤ args.term) || ltb_ℤ reply.term rf.current_term)
          ≡ false =
        ground (arith, parts_of_eq asked, parts_of_eq answered) in
      let current : ltb_ℤ rf.current_term reply.term ≡ false =
        ground (arith, parts_of_eq answered) in
      elim (Bool-cases (leb_ℤ args.last_included_index m)) [
        | inl have ↦
            let not_moved : ltb_ℤ m m ≡ false = ground arith in
            (
              persist rf,
              m,
              rw (fresh, current) (bind_ok _ slot ∙ rw have),
              refl,
              slot,
              rw not_moved next,
              ground arith,
              ground arith,
              inl refl,
            )
        | inr behind_it ↦
            let (next_index, match_index, wn, wm, run) =
              install_snapshot_response-moves rf args reply m n asked answered slot next
                (ground arith) in
            let moved : ltb_ℤ m args.last_included_index ≡ true = ground arith in
            (
              persist (record rf { next_index = next_index; match_index = match_index }),
              args.last_included_index,
              run,
              refl,
              wm.at,
              rw moved wn.at,
              ground arith,
              ground arith,
              inr refl,
            )
      ]
