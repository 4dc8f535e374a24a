-- ===== src/Raft/FollowerLog/Match.antt =====
-- The branches of followerHandleLog at a known split of the log.
use model_lib.Prelude.{
  ◌≡◌, ap, ◌∙◌, inl, inr, true, false, List, ◌++◌, arith, leb, if◌then◌else◌, leb→le, Bool-cases,
  length, length-append, All,
}
use model_lib.Prelude.Go.{ok, ◌>>=◌}
use model_lib.Prelude.Int.{
  ℤ, pos, minus_one, ◌-ℤ◌, ◌≤ℤ◌, leb_ℤ, inc, eq_of_parts, parts_of_eq, int_laws,
}
use model_lib.Prelude.Slices.{slice_to-split}
use model_lib.Raft.FollowerLog.{answer, take_over, handle_match}
use model_lib.Raft.FollowerLog.Overwrite.{reconcile, overwrite-reconcile}
use model_lib.Raft.FollowerLog.Reconcile.{
  reconcile-Contiguous, reconcile_keeps_commit, Holds, Holds-self, reconcile-Holds,
}
use model_lib.Raft.Log.Contiguous.{Contiguous, last_index, last_index_parts}
use model_lib.Raft.State.{LogEntry, Raft, AppendEntriesArgs, AppendEntriesReply}
use model_lib.Raft.WellFormed.{Agrees}
use mathlib.Core.List.{Memᴰ}

module _ {C : Type 0} where
  -- What stands behind the matching entry afterwards.
  abbrev pub taken : List (LogEntry C) → List (LogEntry C) → List (LogEntry C)
  taken after es = if leb (length after) (length es) then es else reconcile after es

  -- The code's length test compares what follows the match with the entries.
  length_test :
      (before after es : List (LogEntry C)) (actual : ℤ)
      → inc actual ≡ pos (length before)
      → leb_ℤ (pos (length (before ++ after)) -ℤ pos 1 -ℤ actual) (pos (length es))
        ≡ leb (length after) (length es)
  length_test before after es actual at =
      let left : ℤ = pos (length (before ++ after)) -ℤ pos 1 -ℤ actual in
      let e : left ≡ pos (length after) =
        eq_of_parts left (pos (length after))
          (omega (int_laws, length-append before after, parts_of_eq at)) in
      rw e (ground arith)

  pub take_over_lem :
      (before after es : List (LogEntry C)) (actual : ℤ)
      → inc actual ≡ pos (length before)
      → take_over (before ++ after) es actual ≡ ok (before ++ taken after es)
  unfolding take_over
  take_over_lem before after es actual at =
      rw (length_test before after es actual at, at)
        (elim (Bool-cases (leb (length after) (length es))) [
          | inl short ↦
              rw short (ap (λ o. o >>= λ kept. ok (kept ++ es)) (slice_to-split before after))
          | inr long ↦ rw long (overwrite-reconcile before after es (ground arith))
        ])

  -- With the match in front of `after`, the handler is total and replaces `after` alone.
  pub handle_match_lem :
      (rf : Raft C) (args : AppendEntriesArgs C) (actual : ℤ) (reply : AppendEntriesReply)
      (before after : List (LogEntry C))
      → rf.log ≡ before ++ after
      → inc actual ≡ pos (length before)
      → let log = before ++ taken after args.entries in
        handle_match rf args actual reply
        ≡ ok (record rf { log = log }, answer reply true minus_one minus_one (length log))
  unfolding handle_match
  handle_match_lem rf args actual reply before after split at =
      ap
        (λ o. o >>= λ log.
          ok (record rf { log = log }, answer reply true minus_one minus_one (length log)))
        (ap (λ l. take_over l args.entries actual) split
          ∙ take_over_lem before after args.entries actual at)

  -- What is taken over continues the match, keeps what is committed and holds the entries.
  pub taken-Contiguous :
      (b : ℤ) (after es : List (LogEntry C))
      → Contiguous b after
      → Contiguous b es
      → Contiguous b (taken after es)
  taken-Contiguous b after es h k =
      elim (leb (length after) (length es))
        as (λ c. Contiguous b (if c then es else reconcile after es)) [
          | true ↦ k
          | false ↦ reconcile-Contiguous b after es h k
        ]

  pub taken_keeps_commit :
      (b commit : ℤ) (after es : List (LogEntry C))
      → Contiguous b after
      → Contiguous b es
      → Agrees commit after es
      → commit ≤ℤ last_index b after
      → commit ≤ℤ last_index b (taken after es)
  taken_keeps_commit b commit after es h k a c =
      elim (Bool-cases (leb (length after) (length es))) [
        | inl short ↦
            rw short
              (omega (arith, last_index_parts b after h, last_index_parts b es k, leb→le _ _ short))
        | inr long ↦ rw long (reconcile_keeps_commit b commit after es h k a c)
      ]

  pub taken-Holds :
      (old : List (LogEntry C)) (b : ℤ) (after es : List (LogEntry C))
      → All (λ x. Memᴰ x old) after
      → Contiguous b after
      → Contiguous b es
      → Holds old (taken after es) es
  taken-Holds old b after es had h k =
      elim (leb (length after) (length es))
        as (λ c. Holds old (if c then es else reconcile after es) es) [
          | true ↦ Holds-self old es
          | false ↦ reconcile-Holds old b after es had h k
        ]
