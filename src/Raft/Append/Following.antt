-- ===== src/Raft/Append/Following.antt =====
-- A peer that AppendEntriesRequestHandler has made a follower, before it checks the log.
use model_lib.Prelude.{◌≡◌, refl, inl, inr, arith, Bool-cases}
use model_lib.Prelude.Int.{ℤ, minus_one, ◌≤ℤ◌, ◌<ℤ◌, ltb_ℤ, eq_of_parts}
use model_lib.Raft.Roles.{to_follower}
use model_lib.Raft.State.{follower, Raft, AppendEntriesArgs}
use model_lib.Raft.WellFormed.{IsWellFormed, Fits, IsWellFormed-same, Fits-same}

module _ {C : Type 0} where
  -- toFollower keeps what it does not write.
  pub to_follower_cases {ℓ} :
      (P : Raft C → Type ℓ) (term : ℤ) (rf : Raft C)
      → (rf.current_term <ℤ term
          → P (record rf { role = follower; voted_for = minus_one; current_term = term }))
      → (term ≤ℤ rf.current_term → P (record rf { role = follower }))
      → P (to_follower term rf)
  unfolding to_follower
  to_follower_cases P term rf newer same = elim (Bool-cases (ltb_ℤ rf.current_term term)) [
    | inl lower ↦ rw lower (newer (ground arith))
    | inr not_lower ↦ rw not_lower (same (ground arith))
  ]

  -- The state in which the log is checked.
  abbrev pub following : ℤ → ℤ → Raft C → Raft C
  following now term rf = record (to_follower term rf) { last_heartbeat_time = now }

  pub following_keeps :
      (now term : ℤ) (rf : Raft C)
      → let rf' = following now term rf in
        (rf'.log ≡ rf.log) × (rf'.me ≡ rf.me) × (rf'.snapshot_index ≡ rf.snapshot_index)
  following_keeps now term rf =
      to_follower_cases
        (λ r. (r.log ≡ rf.log) × (r.me ≡ rf.me) × (r.snapshot_index ≡ rf.snapshot_index)) term rf
        (λ newer. (refl, refl, refl)) (λ same. (refl, refl, refl))

  pub following_lem :
      (now : ℤ) (rf : Raft C) (args : AppendEntriesArgs C)
      → IsWellFormed rf
      → Fits rf args
      → rf.current_term ≤ℤ args.term
      → let rf' = following now args.term rf in
        IsWellFormed rf'
        × Fits rf' args
        × (rf'.commit_index ≡ rf.commit_index)
        × (rf'.current_term ≡ args.term)
        × (rf'.role ≡ follower)
        × (rf'.snapshot_index ≡ rf.snapshot_index)
  following_lem now rf args wf fits le =
      to_follower_cases
        (λ r.
          let rf' : Raft C = record r { last_heartbeat_time = now } in
          IsWellFormed rf'
          × Fits rf' args
          × (rf'.commit_index ≡ rf.commit_index)
          × (rf'.current_term ≡ args.term)
          × (rf'.role ≡ follower)
          × (rf'.snapshot_index ≡ rf.snapshot_index))
        args.term rf
        (λ lower. (
          IsWellFormed-same _ _ refl refl refl wf,
          Fits-same _ _ refl refl refl _ fits,
          refl,
          refl,
          refl,
          refl,
        ))
        (λ same. (
          IsWellFormed-same _ _ refl refl refl wf,
          Fits-same _ _ refl refl refl _ fits,
          refl,
          eq_of_parts rf.current_term args.term (omega arith),
          refl,
          refl,
        ))
