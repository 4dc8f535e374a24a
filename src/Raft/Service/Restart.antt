-- ===== src/Raft/Service/Restart.antt =====
-- A crash and a restart: Make on what persist has stored.
use model_lib.Prelude.{
  ℕ, ◌≡◌, refl, ap, inl, inr, true, some, List, [], ◌∷◌, arith, if◌then◌else◌, Bool-cases,
}
use model_lib.Prelude.Int.{ℤ, minus_one, ltb_ℤ, ◌==ℤ◌, inc_parts, parts_of_eq}
use model_lib.Raft.Log.Contiguous.{Contiguous}
use model_lib.Raft.Persist.{
  Gob, GobLaws, clone, read_raft_state, save, read_snapshot, clone_lem, persistent_state, persist,
  restore, read_persist_snapshot, read_persist-encode,
}
use model_lib.Raft.Service.{put_apply_ch_buffer, put_committed, put_restored, blank, reread, make}
use model_lib.Raft.State.{follower, LogEntry, ApplyMsg, Raft, snapshot_msg}
use model_lib.Raft.WellFormed.{IsWellFormed}

module _ {C : Type 0} ⦃g : Gob C⦄ where
  -- What a peer is after a restart.
  pub record Restarted (stored : Raft C) (rf : Raft C) : Type 0 where
    pub durable : persistent_state rf ≡ persistent_state stored
    pub snapshot : rf.snapshot ≡ stored.snapshot
    pub role : rf.role ≡ follower
    pub commit : rf.commit_index ≡ stored.snapshot_index
    pub applied : rf.last_applied ≡ stored.snapshot_index
    pub well_formed : IsWellFormed rf
    pub buffer :
        rf.apply_ch_buffer
        ≡ (if stored.snapshot_index ==ℤ minus_one then [] else snapshot_msg stored ∷ [])

  -- Make's loop puts no entry into the buffer: the first entry is above the commit index, which is
  -- the snapshot's.
  put_committed-none :
      (es : List (LogEntry C)) (rf : Raft C)
      → Contiguous rf.commit_index es
      → put_committed es rf ≡ some rf
  unfolding put_committed
  put_committed-none [] rf h = refl
  put_committed-none (e ∷ es) rf h =
      let above : ltb_ℤ rf.commit_index e.index ≡ true =
        ground (arith, inc_parts rf.commit_index, parts_of_eq h.0) in
      rw above

  pub reread-persist :
      (laws : GobLaws g) (stored rf : Raft C)
      → reread (persist stored).persister rf
        ≡ (record (restore (some (persistent_state stored)) rf) { snapshot = stored.snapshot })
  unfolding persist save read_raft_state read_snapshot read_persist_snapshot
  reread-persist laws stored rf =
      rw
        (
          clone_lem (clone (g.encode (persistent_state stored))),
          clone_lem (g.encode (persistent_state stored)),
          clone_lem (clone stored.snapshot),
          clone_lem stored.snapshot,
        )
        (ap (λ (r : Raft C). record r { snapshot = stored.snapshot })
          (read_persist-encode laws (persistent_state stored) rf))

  -- What Make has read when `stored` was persisted.
  abbrev resumed : Raft C → Raft C → Raft C
  resumed stored rf = record (restore (some (persistent_state stored)) rf) {
    snapshot = stored.snapshot;
    commit_index = stored.snapshot_index;
    last_applied = stored.snapshot_index;
  }

  resumed-Restarted :
      (stored rf : Raft C) (wf : IsWellFormed stored) (fresh : rf.role ≡ follower)
      → (msgs : List (ApplyMsg C))
      → msgs ≡ (if stored.snapshot_index ==ℤ minus_one then [] else snapshot_msg stored ∷ [])
      → Restarted stored (record (resumed stored rf) { apply_ch_buffer = msgs })
  resumed-Restarted stored rf wf fresh msgs buffer = record {
    durable = refl;
    snapshot = refl;
    role = fresh;
    commit = refl;
    applied = refl;
    well_formed = record {
      log_contiguous = wf.log_contiguous;
      snapshot_low = wf.snapshot_low;
      commit_low = ground arith;
      commit_high = ground (arith, wf.commit_low, wf.commit_high);
    };
    buffer = buffer;
  }

  -- Make on what persist has stored of a well-formed peer, with an encoding that decodes what it
  -- encoded, returns: the peer is a well-formed follower with the stored term, vote, log and
  -- snapshot, the commit index is the snapshot's, and the apply buffer holds the snapshot, if
  -- there is one, and nothing else.
  pub make-Restarted :
      (laws : GobLaws g) (stored : Raft C) (wf : IsWellFormed stored)
      → (now : ℤ) (random peers : ℕ) (me : ℤ)
      → (rf : Raft C) × (make now random peers me (persist stored).persister ≡ some rf)
        × Restarted stored rf
  unfolding make put_restored put_apply_ch_buffer put_committed mathlib.Core.Option.bind
  make-Restarted laws stored wf now random peers me =
      let empty = blank now random peers me (persist stored).persister in
      let rf = resumed stored empty in
      rw (reread-persist laws stored empty)
        (elim (Bool-cases (stored.snapshot_index ==ℤ minus_one)) [
          | inl none_kept ↦
              let buffered : Raft C = rf in
              (
                buffered,
                rw none_kept (put_committed-none rf.log buffered wf.log_contiguous),
                resumed-Restarted stored empty wf refl [] (rw none_kept),
              )
          | inr kept ↦
              let buffered : Raft C = record rf { apply_ch_buffer = snapshot_msg rf ∷ [] } in
              (
                buffered,
                rw kept (put_committed-none rf.log buffered wf.log_contiguous),
                resumed-Restarted stored empty wf refl (snapshot_msg rf ∷ []) (rw kept),
              )
        ])
