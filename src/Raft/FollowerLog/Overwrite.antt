-- ===== src/Raft/FollowerLog/Overwrite.antt =====
-- The loops of followerHandleLog that take entries over, against a recursive description.
use model_lib.Prelude.{
  suc, ◌≤◌, ◌≡◌, refl, ap, ◌∙◌, inl, inr, List, [], ◌∷◌, ◌++◌, arith, if◌then◌else◌, Bool-cases,
  length, append_cons_assoc,
}
use model_lib.Prelude.Go.{ok, ◌>>=◌, slice_to}
use model_lib.Prelude.Int.{pos, ◌==ℤ◌, inc, ==ℤ_refl}
use model_lib.Prelude.Slices.{length-snoc, get-split, slice_to-split}
use model_lib.Raft.FollowerLog.{overwrite}
use model_lib.Raft.State.{LogEntry}

module _ {C : Type 0} where
  -- The log `xs` brought into line with the entries `es`: what agrees by term stays, and from the
  -- first difference on the entries replace the rest. A longer log that agrees stays whole.
  abbrev pub reconcile : List (LogEntry C) → List (LogEntry C) → List (LogEntry C)
  reconcile xs [] = xs
  reconcile [] (e ∷ es) = e ∷ es
  reconcile (x ∷ xs) (e ∷ es) = if x.term ==ℤ e.term then x ∷ reconcile xs es else e ∷ es

  pub reconcile_self : (es : List (LogEntry C)) → reconcile es es ≡ es
  reconcile_self [] = refl
  reconcile_self (e ∷ es) = rw (==ℤ_refl e.term) (ap (◌∷◌ e) (reconcile_self es))

  -- One round of the loop, at the entry `x` of the log.
  overwrite_step :
      (before xs : List (LogEntry C)) (x e : LogEntry C) (es : List (LogEntry C))
      → overwrite (before ++ x ∷ xs) (pos (length before)) (e ∷ es)
        ≡ overwrite
            (if x.term ==ℤ e.term then before ++ x ∷ xs else before ++ e ∷ es)
            (pos (suc (length before)))
            es
  unfolding overwrite inc
  overwrite_step before xs x e es =
      ap
        (λ o. o >>= λ x'. slice_to (before ++ x ∷ xs) (pos (length before)) >>= λ kept.
          overwrite (if x'.term ==ℤ e.term then before ++ x ∷ xs else kept ++ e ∷ es)
            (inc (pos (length before))) es)
        (get-split before xs x)
      ∙ ap
          (λ o. o >>= λ kept.
            overwrite (if x.term ==ℤ e.term then before ++ x ∷ xs else kept ++ e ∷ es)
              (inc (pos (length before))) es)
          (slice_to-split before (x ∷ xs))

  -- The loop's state one position further.
  overwrite_shift :
      (before ys zs : List (LogEntry C)) (y : LogEntry C) (es : List (LogEntry C))
      → overwrite ((before ++ y ∷ []) ++ ys) (pos (length (before ++ y ∷ []))) es
        ≡ ok ((before ++ y ∷ []) ++ zs)
      → overwrite (before ++ y ∷ ys) (pos (suc (length before))) es ≡ ok (before ++ y ∷ zs)
  overwrite_shift before ys zs y es h =
      rw (append_cons_assoc before ys y, append_cons_assoc before zs y, length-snoc before y) at h

  -- On a log that is at least as long behind a prefix as the entries, the overwriting loop is
  -- total, keeps the prefix, and brings what follows it into line with the entries as `reconcile`
  -- describes.
  pub overwrite-reconcile :
      (before xs es : List (LogEntry C))
      → length es ≤ length xs
      → overwrite (before ++ xs) (pos (length before)) es ≡ ok (before ++ reconcile xs es)
  overwrite-reconcile before xs [] h = unfold overwrite in refl
  overwrite-reconcile before [] (e ∷ es) h = absurd (omega arith)
  overwrite-reconcile before (x ∷ xs) (e ∷ es) h =
      overwrite_step before xs x e es ∙ elim (Bool-cases (x.term ==ℤ e.term)) [
        | inl same ↦ rw same (
            overwrite_shift before xs (reconcile xs es) x es
              (overwrite-reconcile (before ++ x ∷ []) xs es (omega arith)))
        | inr differs ↦ rw differs (
            overwrite_shift before es es e es (
              overwrite-reconcile (before ++ e ∷ []) es es (omega arith)
              ∙ ap (λ l. ok ((before ++ e ∷ []) ++ l)) (reconcile_self es)))
      ]
