-- ===== src/Raft/Service.antt =====
-- What the service calls: Start, Make and the apply buffer of src/raft/raft.go.
pub mod Restart
pub mod Start
use model_lib.Prelude.{
  ℕ, ◌+◌, Bool, true, false, not, Option, none, some, List, [], ◌∷◌, ◌++◌, if◌then◌else◌,
}
use model_lib.Prelude.Go.{Outcome, ok, ◌>>=◌, put}
use model_lib.Prelude.Int.{ℤ, pos, minus_one, ltb_ℤ, ◌==ℤ◌, inc}
use model_lib.Raft.Log.{get_last_log_index_and_term}
use model_lib.Raft.Persist.{
  Gob, read_raft_state, read_snapshot, persist, read_persist, read_persist_snapshot,
}
use model_lib.Raft.State.{
  follower, is_leader, LogEntry, ApplyMsg, Persister, Raft, command_msg, snapshot_msg,
}
use mathlib.Core.Option

module _ {C : Type 0} ⦃g : Gob C⦄ where
  -- (index, term, isLeader); the caller then runs `leader_send_append_entries_rpc`.
  unfoldable pub raft_start : C → Raft C → Outcome (Raft C × (ℤ × ℤ × Bool))
  raft_start command rf = if not (is_leader rf.role) then ok (rf, (minus_one, pos 0, false)) else do
    let index = inc (get_last_log_index_and_term rf).0
    match_index ← put rf.match_index rf.me index
    next_index ← put rf.next_index rf.me (inc index)
    let entry : LogEntry C = record { term = rf.current_term; index = index; command = command }
    ok (
      persist (record rf {
        log = rf.log ++ entry ∷ [];
        match_index = match_index;
        next_index = next_index;
      }),
      (inc index, rf.current_term, true),
    )

module _ {C : Type 0} where
  -- `putApplyChBuffer` waits while the buffer holds messages: `none`, the caller is blocked.
  unfoldable pub put_apply_ch_buffer : List (ApplyMsg C) → Raft C → Option (Raft C)
  put_apply_ch_buffer msgs rf = elim rf.apply_ch_buffer [
    | [] ↦ some (record rf { apply_ch_buffer = msgs })
    | m ∷ rest ↦ none
  ]

  -- One round of `getApplyChBuffer`: what is sent on applyCh; `none` while the buffer is empty.
  unfoldable pub get_apply_ch_buffer : Raft C → Option (Raft C × List (ApplyMsg C))
  get_apply_ch_buffer rf = elim rf.apply_ch_buffer [
    | [] ↦ none
    | m ∷ rest ↦ some (record rf { apply_ch_buffer = [] }, m ∷ rest)
  ]

  -- Make's loop over the log that puts committed entries into the buffer.
  unfoldable pub put_committed : List (LogEntry C) → Raft C → Option (Raft C)
  put_committed [] rf = some rf
  put_committed (e ∷ es) rf =
      if ltb_ℤ rf.commit_index e.index
      then some rf
      else Option.bind (put_apply_ch_buffer (command_msg e ∷ []) rf) (λ rf'. put_committed es rf')

  unfoldable pub put_restored : Raft C → Option (Raft C)
  put_restored rf =
      if rf.snapshot_index ==ℤ minus_one
      then some rf
      else put_apply_ch_buffer (snapshot_msg rf ∷ []) rf

module _ {C : Type 0} ⦃g : Gob C⦄ where
  -- The fields that Make sets before it reads the persister.
  abbrev pub blank : ℤ → ℕ → ℕ → ℤ → Persister → Raft C
  blank now random peers me persister = record {
    peers = peers;
    persister = persister;
    me = me;
    dead = false;
    current_term = pos 0;
    voted_for = minus_one;
    log = [];
    commit_index = minus_one;
    last_applied = minus_one;
    next_index = [];
    match_index = [];
    role = follower;
    last_heartbeat_time = now;
    election_timeout = pos (200 + random);
    vote_cnt = pos 0;
    apply_ch_buffer = [];
    apply_goroutines = [];
    snapshot = [];
    snapshot_index = minus_one;
    snapshot_term = pos 0;
  }

  abbrev pub reread : Persister → Raft C → Raft C
  reread persister rf =
      read_persist_snapshot (read_snapshot persister) (read_persist (read_raft_state persister) rf)

  -- `none`: Make blocks, since the reader of the buffer does not run yet.
  unfoldable pub make : ℤ → ℕ → ℕ → ℤ → Persister → Option (Raft C)
  make now random peers me persister =
      let rf = reread persister (blank now random peers me persister) in
      let rf' : Raft C = record rf {
        commit_index = rf.snapshot_index;
        last_applied = rf.snapshot_index;
      } in
      Option.bind (put_restored rf') (λ rf''. put_committed rf''.log rf'')
