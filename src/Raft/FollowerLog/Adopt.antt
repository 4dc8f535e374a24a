-- ===== src/Raft/FollowerLog/Adopt.antt =====
-- The new entries of a follower that has compacted its log, and the loop that compares them.
use model_lib.Prelude.{
  ℕ, suc, ◌≤◌, ◌≡◌, refl, sym, ap, subst, ◌∙◌, ◌⊎◌, inl, inr, List, [], ◌∷◌, ◌++◌, arith, leb,
  if◌then◌else◌, leb→le, Bool-cases, length, append_cons_assoc, All, All-mono,
}
use model_lib.Prelude.Go.{ok, bind_ok, get}
use model_lib.Prelude.Int.{ℤ, pos, ◌≤ℤ◌, ◌==ℤ◌, ==ℤ→≡, ==ℤ_refl, ==ℤ→≢, parts_of_eq}
use model_lib.Prelude.Slices.{length-snoc, get-split}
use model_lib.Raft.FollowerLog.{replace, adopt}
use model_lib.Raft.FollowerLog.Reconcile.{StandsFor, Holds, Holds-self, All-Memᴰ}
use model_lib.Raft.Log.Contiguous.{Contiguous, last_index, last_index_parts, last_index-le}
use model_lib.Raft.State.{LogEntry}
use model_lib.Raft.WellFormed.{AgreesAt, Agrees}
use mathlib.Core.List.{Memᴰ}

module _ {C : Type 0} where
  -- One round of the loop, at the entry `y` of the log.
  replace_step :
      (new xs ys es : List (LogEntry C)) (y e : LogEntry C) (i : ℕ)
      → i ≡ length xs
      → replace new (xs ++ y ∷ ys) i (e ∷ es)
        ≡ replace new (if y.term ==ℤ e.term then xs ++ y ∷ ys else new) (suc i) es
  unfolding replace
  replace_step new xs ys es y e i at =
      bind_ok _ (ap (λ (n : ℕ). get (xs ++ y ∷ ys) (pos n)) at ∙ get-split xs ys y)

  replace_self :
      (done es : List (LogEntry C))
      → replace (done ++ es) (done ++ es) (length done) es ≡ ok (done ++ es)
  replace_self done [] = unfold replace in refl
  replace_self done (e ∷ es) =
      replace_step (done ++ e ∷ es) done es es e e (length done) refl
      ∙ rw (==ℤ_refl e.term) (
          rw (append_cons_assoc done es e, length-snoc done e) at
            (replace_self (done ++ e ∷ []) es))

  -- What is said of the loop one position further holds of it.
  replace_shift :
      (old : List (LogEntry C)) (b commit : ℤ) (done es xs ys log : List (LogEntry C))
      (y e : LogEntry C)
      → StandsFor old y e
      → ((log ≡ (xs ++ y ∷ []) ++ ys) × Holds old ys es)
        ⊎ ((log ≡ (done ++ e ∷ []) ++ es) × (commit ≤ℤ last_index e.index es))
      → ((log ≡ xs ++ y ∷ ys) × Holds old (y ∷ ys) (e ∷ es))
        ⊎ ((log ≡ done ++ e ∷ es) × (commit ≤ℤ last_index b (e ∷ es)))
  replace_shift old b commit done es xs ys log y e same (inl (kept, holds)) =
      inl (kept ∙ append_cons_assoc xs ys y, (same, holds))
  replace_shift old b commit done es xs ys log y e same (inr (took, reaches)) =
      inr (took ∙ append_cons_assoc done es e, reaches)

  -- The loop that replaces the log is total; it keeps the log, or takes the entries, which then reach
  -- at least to the commit index.
  pub replace_lem :
      (old : List (LogEntry C)) (b commit : ℤ) (done es xs ys : List (LogEntry C))
      → All (λ x. Memᴰ x old) ys
      → length done ≡ length xs
      → length es ≤ length ys
      → Contiguous b ys
      → Contiguous b es
      → Agrees commit ys es
      → (log : List (LogEntry C)) × (replace (done ++ es) (xs ++ ys) (length done) es ≡ ok log)
        × (((log ≡ xs ++ ys) × Holds old ys es)
            ⊎ ((log ≡ done ++ es) × (commit ≤ℤ last_index b es)))
  replace_lem old b commit done [] xs ys had len fits h k a =
      (xs ++ ys, unfold replace in refl, inl (refl, tt))
  replace_lem old b commit done (e ∷ es) xs [] had len fits h k a = absurd (omega arith)
  replace_lem old b commit done (e ∷ es) xs (y ∷ ys) had len fits h k a =
      let same_index : y.index ≡ e.index = h.0 ∙ sym k.0 in
      let step = replace_step (done ++ e ∷ es) xs ys es y e (length done) len in
      elim (Bool-cases (y.term ==ℤ e.term)) [
        | inl same ↦
            let (log, run, out) =
              replace_lem old e.index commit (done ++ e ∷ []) es (xs ++ y ∷ []) ys had.1
                (length-snoc done e ∙ ap suc len ∙ sym (length-snoc xs y)) (omega arith)
                (subst (λ i. Contiguous i ys) same_index h.1) k.1
                (All-mono (λ z. All (AgreesAt commit z) (e ∷ es)) (λ z. All (AgreesAt commit z) es)
                  ys (λ z r. r.1) a.1) in
            (
              log,
              step
                  ∙ rw same (
                      rw
                        (append_cons_assoc done es e, append_cons_assoc xs ys y, length-snoc done e)
                        at run),
              replace_shift old b commit done es xs ys log y e
                  (inr (had.0, same_index, ==ℤ→≡ y.term e.term same)) out,
            )
        | inr differs ↦ (
          done ++ e ∷ es,
          step
              ∙ rw differs (
                  rw (append_cons_assoc done es e, length-snoc done e) at
                    (replace_self (done ++ e ∷ []) es)),
          inr (
            refl,
            omega (
              arith,
              parts_of_eq same_index,
              last_index-le e.index es k.1,
              λ (le : y.index ≤ℤ commit). ==ℤ→≢ y.term e.term differs (a.0.0 same_index le),
            ),
          ),
        )
      ]

  pub adopt_lem :
      (b commit : ℤ) (log new : List (LogEntry C))
      → Contiguous b log
      → Contiguous b new
      → Agrees commit log new
      → commit ≤ℤ last_index b log
      → (log' : List (LogEntry C)) × (adopt log new ≡ ok log')
        × Contiguous b log'
        × (commit ≤ℤ last_index b log')
        × Holds log log' new
  unfolding adopt
  adopt_lem b commit log new h k a c = elim (Bool-cases (leb (length log) (length new))) [
    | inl short ↦ (
      new,
      rw short,
      k,
      omega (arith, last_index_parts b log h, last_index_parts b new k, leb→le _ _ short),
      Holds-self log new,
    )
    | inr long ↦
        let (log', run, out) =
          replace_lem log b commit [] new [] log (All-Memᴰ log) refl (ground arith) h k a in
        elim out [
          | inl (same, holds) ↦ (
            log',
            rw long run,
            subst (Contiguous b) (sym same) h,
            subst (λ l. commit ≤ℤ last_index b l) (sym same) c,
            subst (λ l. Holds log l new) (sym same) holds,
          )
          | inr (other, reaches) ↦ (
            log',
            rw long run,
            subst (Contiguous b) (sym other) k,
            subst (λ l. commit ≤ℤ last_index b l) (sym other) reaches,
            subst (λ l. Holds log l new) (sym other) (Holds-self log new),
          )
        ]
  ]
