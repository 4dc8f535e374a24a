-- ===== src/Raft/Peer/Durable/Restore.antt =====
-- What a restart reads from stable storage: reread of Make, whatever the other fields are.
use model_lib.Prelude.{
  ℕ, ◌≡◌, refl, sym, ap, subst, ◌∙◌, inl, inr, Option, none, some, List, [], ◌∷◌, arith, if_true,
  if_false, Bool-cases, Option-cases, some-injective,
}
use model_lib.Prelude.Int.{ℤ, pos, minus_one, ltb_ℤ, ◌==ℤ◌}
use model_lib.Raft.Persist.{
  PersistentState, Gob, GobLaws, make_persister, clone, read_raft_state, save, read_snapshot,
  clone_lem, is_empty, persistent_state, persist, read_persist, read_persist_snapshot,
}
use model_lib.Raft.Service.{
  put_apply_ch_buffer, get_apply_ch_buffer, put_committed, put_restored, blank, reread, make,
}
use model_lib.Raft.Service.Restart.{reread-persist}
use model_lib.Raft.State.{LogEntry, ApplyMsg, Persister, Raft, command_msg, snapshot_msg}
use mathlib.Core.Option
use mathlib.Core.Option

module _ {C : Type 0} ⦃g : Gob C⦄ where
  -- The two peers have the same stable storage and the same state to store.
  abbrev pub SameStored : Raft C → Raft C → Type 0
  SameStored rf rf' =
      (rf'.persister ≡ rf.persister)
      × (persistent_state rf' ≡ persistent_state rf)
      × (rf'.snapshot ≡ rf.snapshot)

  -- A peer before Make has read anything.
  abbrev pub unborn : Raft C
  unborn = blank (pos 0) 0 0 (pos 0) make_persister

  -- The state that Make reads from the peer's stable storage.
  abbrev pub stored_state : Raft C → PersistentState C
  stored_state rf = persistent_state (reread rf.persister unborn)

  -- If the peer crashed now, Make would read the state that it has.
  abbrev pub IsDurable : Raft C → Type 0
  IsDurable rf =
      (stored_state rf ≡ persistent_state rf) × (read_snapshot rf.persister ≡ rf.snapshot)

  pub persist-IsDurable : GobLaws g → (rf : Raft C) → IsDurable (persist rf)
  unfolding persist save read_snapshot
  persist-IsDurable laws rf = (
    ap persistent_state (reread-persist laws rf unborn),
    clone_lem (clone rf.snapshot) ∙ clone_lem rf.snapshot,
  )

  pub SameStored-IsDurable : (rf rf' : Raft C) → SameStored rf rf' → IsDurable rf → IsDurable rf'
  SameStored-IsDurable rf rf' same durable = (
    ap (λ p. persistent_state (reread p unborn)) same.0 ∙ durable.0 ∙ sym same.1,
    ap read_snapshot same.0 ∙ durable.1 ∙ sym same.2,
  )

  -- What is read depends on the stored bytes and, where there are none, on the fields to store.
  read_persist-same :
      (bytes : List ℕ) (rf rf' : Raft C)
      → persistent_state rf ≡ persistent_state rf'
      → persistent_state (read_persist bytes rf) ≡ persistent_state (read_persist bytes rf')
  unfolding read_persist
  read_persist-same bytes rf rf' e = elim (Bool-cases (is_empty bytes)) [
    | inl no_bytes ↦ rw no_bytes e
    | inr some_bytes ↦ elim (Option-cases (g.decode bytes)) [
      | inl fails ↦ rw (some_bytes, fails) e
      | inr (s, decodes) ↦ rw (some_bytes, decodes)
    ]
  ]

  read_persist-persister :
      (bytes : List ℕ) (rf : Raft C) → (read_persist bytes rf).persister ≡ rf.persister
  unfolding read_persist
  read_persist-persister bytes rf = elim (Bool-cases (is_empty bytes)) [
    | inl no_bytes ↦ rw no_bytes
    | inr some_bytes ↦ elim (Option-cases (g.decode bytes)) [
      | inl fails ↦ rw (some_bytes, fails)
      | inr (s, decodes) ↦ rw (some_bytes, decodes)
    ]
  ]

  pub put_apply_ch_buffer-SameStored :
      (msgs : List (ApplyMsg C)) (rf rf' : Raft C)
      → put_apply_ch_buffer msgs rf ≡ some rf'
      → SameStored rf rf'
  unfolding put_apply_ch_buffer
  put_apply_ch_buffer-SameStored msgs rf rf' e = ground arith

  pub get_apply_ch_buffer-SameStored :
      (msgs : List (ApplyMsg C)) (rf rf' : Raft C)
      → get_apply_ch_buffer rf ≡ some (rf', msgs)
      → SameStored rf rf'
  unfolding get_apply_ch_buffer
  get_apply_ch_buffer-SameStored msgs rf rf' e = ground arith

  SameStored-trans :
      (rf rf' rf'' : Raft C) → SameStored rf rf' → SameStored rf' rf'' → SameStored rf rf''
  SameStored-trans rf rf' rf'' s t = (t.0 ∙ s.0, t.1 ∙ s.1, t.2 ∙ s.2)

  bind_some :
      (m : Option (Raft C)) (f : Raft C → Option (Raft C)) {rf : Raft C}
      → Option.bind m f ≡ some rf
      → (rf' : Raft C) × (m ≡ some rf') × (f rf' ≡ some rf)
  unfolding mathlib.Core.Option.bind
  bind_some none f e = cc
  bind_some (some rf') f e = (rf', refl, e)

  put_committed-SameStored :
      (es : List (LogEntry C)) (rf rf' : Raft C)
      → put_committed es rf ≡ some rf'
      → SameStored rf rf'
  unfolding put_committed
  put_committed-SameStored [] rf rf' e = subst (SameStored rf) (some-injective e) (refl, refl, refl)
  put_committed-SameStored (x ∷ es) rf rf' e = elim (Bool-cases (ltb_ℤ rf.commit_index x.index)) [
    | inl above ↦
        subst (SameStored rf) (some-injective (sym (if_true _ _ above) ∙ e)) (refl, refl, refl)
    | inr below ↦
        let first_put = put_apply_ch_buffer (command_msg x ∷ []) rf in
        let (rf1, first, rest) =
          bind_some first_put (put_committed es) (sym (if_false _ _ below) ∙ e) in
        SameStored-trans rf rf1 rf' (put_apply_ch_buffer-SameStored _ rf rf1 first)
          (put_committed-SameStored es rf1 rf' rest)
  ]

  put_restored-SameStored : (rf rf' : Raft C) → put_restored rf ≡ some rf' → SameStored rf rf'
  unfolding put_restored
  put_restored-SameStored rf rf' e = elim (Bool-cases (rf.snapshot_index ==ℤ minus_one)) [
    | inl none_kept ↦
        subst (SameStored rf) (some-injective (sym (if_true _ _ none_kept) ∙ e)) (refl, refl, refl)
    | inr kept ↦
        put_apply_ch_buffer-SameStored (snapshot_msg rf ∷ []) rf rf' (sym (if_false _ _ kept) ∙ e)
  ]

  -- A peer that Make returns has the state that Make has read.
  pub make-IsDurable :
      (now : ℤ) (random peers : ℕ) (me : ℤ) (persister : Persister) (rf : Raft C)
      → make now random peers me persister ≡ some rf
      → IsDurable rf × (persistent_state rf ≡ persistent_state (reread persister unborn))
  unfolding make read_persist_snapshot
  make-IsDurable now random peers me persister rf e =
      let bytes = read_raft_state persister in
      let empty = blank now random peers me persister in
      let read = reread persister empty in
      let start : Raft C = record read {
        commit_index = read.snapshot_index;
        last_applied = read.snapshot_index;
      } in
      let (rf1, first, rest) = bind_some (put_restored start) (λ r. put_committed r.log r) e in
      let same =
        SameStored-trans start rf1 rf (put_restored-SameStored start rf1 first)
          (put_committed-SameStored rf1.log rf1 rf rest) in
      let from : rf.persister ≡ persister = same.0 ∙ read_persist-persister bytes empty in
      let state : persistent_state rf ≡ persistent_state (reread persister unborn) =
        same.1 ∙ read_persist-same bytes empty unborn refl in
      (
        (
          ap (λ p. persistent_state (reread p unborn)) from ∙ sym state,
          ap read_snapshot from ∙ sym same.2,
        ),
        state,
      )
