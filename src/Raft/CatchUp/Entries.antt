-- ===== src/Raft/CatchUp/Entries.antt =====
-- The indices of a contiguous log's entries lie between its base and its last index.
use model_lib.Prelude.{
  ℕ, zero, suc, ◌≡◌, sym, ap, subst, ◌∙◌, some, List, [], ◌∷◌, ◌++◌, arith, some-injective,
  get_elem?, append_cons_assoc, All, All-mono,
}
use model_lib.Prelude.Int.{ℤ, ◌≤ℤ◌, ◌<ℤ◌, parts_of_eq, int_laws}
use model_lib.Raft.FollowerLog.Conflict.{FirstOfTerm}
use model_lib.Raft.Log.Contiguous.{
  Contiguous, last_index, last_index-append, Contiguous-left, last_index-le,
}
use model_lib.Raft.State.{LogEntry}

module _ {C : Type 0} where
  pub Contiguous-inside :
      (b : ℤ) (xs ys : List (LogEntry C)) (e : LogEntry C)
      → Contiguous b (xs ++ e ∷ ys)
      → (b <ℤ e.index) × (e.index ≤ℤ last_index b (xs ++ e ∷ ys))
  Contiguous-inside b [] ys e h = (omega (int_laws, parts_of_eq h.0), last_index-le e.index ys h.1)
  Contiguous-inside b (x ∷ xs) ys e h =
      let (above, below) = Contiguous-inside x.index xs ys e h.1 in
      (omega (int_laws, parts_of_eq h.0), below)

  pub Contiguous-above :
      (b : ℤ) (es : List (LogEntry C)) → Contiguous b es → All (λ e. b <ℤ e.index) es
  Contiguous-above b [] h = tt
  Contiguous-above b (e ∷ es) h =
      let up : b <ℤ e.index = omega (int_laws, parts_of_eq h.0) in
      (up, All-mono _ _ es (λ x later. omega arith) (Contiguous-above e.index es h.1))

  pub get_elem?-inside :
      (b : ℤ) (es : List (LogEntry C)) (k : ℕ) (e : LogEntry C)
      → Contiguous b es
      → get_elem? es k ≡ some e
      → (b <ℤ e.index) × (e.index ≤ℤ last_index b es)
  get_elem?-inside b [] k e h read = cc
  get_elem?-inside b (x ∷ es) zero e h read =
      let same : x.index ≡ e.index = ap (λ (y : LogEntry C). y.index) (some-injective read) in
      (
        omega (int_laws, parts_of_eq h.0, parts_of_eq same),
        omega (arith, parts_of_eq same, last_index-le x.index es h.1),
      )
  get_elem?-inside b (x ∷ es) (suc k) e h read =
      let (above, below) = get_elem?-inside x.index es k e h.1 read in
      (omega (int_laws, parts_of_eq h.0), below)

  -- The first entry of a term that occurs at the end of a log.
  pub FirstOfTerm-inside :
      (b : ℤ) (before after : List (LogEntry C)) (e : LogEntry C)
      → Contiguous b (before ++ e ∷ after)
      → (f : FirstOfTerm e.term (before ++ e ∷ []))
      → (b <ℤ f.entry.index) × (f.entry.index ≤ℤ e.index)
  FirstOfTerm-inside b before after e h f =
      let cut : Contiguous b (before ++ e ∷ []) =
        Contiguous-left b (before ++ e ∷ []) after
          (subst (Contiguous b) (sym (append_cons_assoc before after e)) h) in
      let (above, below) =
        Contiguous-inside b f.before f.after f.entry (subst (Contiguous b) f.split cut) in
      let last : last_index b (f.before ++ f.entry ∷ f.after) ≡ e.index =
        ap (last_index b) (sym f.split) ∙ last_index-append b before (e ∷ []) in
      (above, omega (arith, parts_of_eq last))
