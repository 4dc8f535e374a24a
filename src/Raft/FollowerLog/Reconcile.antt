-- ===== src/Raft/FollowerLog/Reconcile.antt =====
-- What bringing a log into line with entries preserves.
use model_lib.Prelude.{
  ◌≡◌, refl, sym, subst, ◌∙◌, ◌⊎◌, inl, inr, List, [], ◌∷◌, arith, Bool-cases, All, All-mono,
}
use model_lib.Prelude.Int.{ℤ, ◌≤ℤ◌, ◌==ℤ◌, ==ℤ→≡, ==ℤ→≢, parts_of_eq, int_laws}
use model_lib.Raft.FollowerLog.Overwrite.{reconcile}
use model_lib.Raft.Log.Contiguous.{Contiguous, last_index, last_index-le}
use model_lib.Raft.State.{LogEntry}
use model_lib.Raft.WellFormed.{AgreesAt, Agrees}
use mathlib.Core.List.{Memᴰ}

module _ {C : Type 0} where
  pub reconcile-Contiguous :
      (b : ℤ) (xs es : List (LogEntry C))
      → Contiguous b xs
      → Contiguous b es
      → Contiguous b (reconcile xs es)
  reconcile-Contiguous b xs [] h k = h
  reconcile-Contiguous b [] (e ∷ es) h k = k
  reconcile-Contiguous b (x ∷ xs) (e ∷ es) h k = elim (Bool-cases (x.term ==ℤ e.term)) [
    | inl same ↦ rw same (
        (
          h.0,
          reconcile-Contiguous x.index xs es h.1 (subst (λ i. Contiguous i es) (k.0 ∙ sym h.0) k.1),
        ))
    | inr differs ↦ rw differs k
  ]

  -- The entries up to the commit index survive, if the entries agree with them.
  pub reconcile_keeps_commit :
      (b commit : ℤ) (xs es : List (LogEntry C))
      → Contiguous b xs
      → Contiguous b es
      → Agrees commit xs es
      → commit ≤ℤ last_index b xs
      → commit ≤ℤ last_index b (reconcile xs es)
  reconcile_keeps_commit b commit xs [] h k a c = c
  reconcile_keeps_commit b commit [] (e ∷ es) h k a c = omega (int_laws, last_index-le b (e ∷ es) k)
  reconcile_keeps_commit b commit (x ∷ xs) (e ∷ es) h k a c =
      let same_index : x.index ≡ e.index = h.0 ∙ sym k.0 in
      elim (Bool-cases (x.term ==ℤ e.term)) [
        | inl same ↦ rw same (
            reconcile_keeps_commit x.index commit xs es h.1
              (subst (λ i. Contiguous i es) (sym same_index) k.1)
              (All-mono (λ y. All (AgreesAt commit y) (e ∷ es)) (λ y. All (AgreesAt commit y) es) xs
                (λ y r. r.1) a.1)
              c)
        | inr differs ↦ rw differs (
            omega (
              arith,
              parts_of_eq same_index,
              last_index-le e.index es k.1,
              λ (le : x.index ≤ℤ commit). ==ℤ→≢ x.term e.term differs (a.0.0 same_index le),
            ))
      ]

  -- The entry `x` stands for the entry `e`: it is `e`, or an entry of the log before with the index
  -- and the term of `e`, whose command the code does not compare.
  abbrev pub StandsFor : List (LogEntry C) → LogEntry C → LogEntry C → Type 0
  StandsFor old x e = (x ≡ e) ⊎ (Memᴰ x old × (x.index ≡ e.index) × (x.term ≡ e.term))

  -- The log begins with entries that stand for the entries `es`, one for each; `old` is the log
  -- before.
  abbrev pub Holds : List (LogEntry C) → List (LogEntry C) → List (LogEntry C) → Type 0
  Holds old log [] = Unit {0}
  Holds old [] (e ∷ es) = ⊥
  Holds old (x ∷ log) (e ∷ es) = StandsFor old x e × Holds old log es

  pub Holds-self : (old es : List (LogEntry C)) → Holds old es es
  Holds-self old [] = tt
  Holds-self old (e ∷ es) = (inl refl, Holds-self old es)

  pub reconcile-Holds :
      (old : List (LogEntry C)) (b : ℤ) (xs es : List (LogEntry C))
      → All (λ x. Memᴰ x old) xs
      → Contiguous b xs
      → Contiguous b es
      → Holds old (reconcile xs es) es
  reconcile-Holds old b xs [] had h k = tt
  reconcile-Holds old b [] (e ∷ es) had h k = (inl refl, Holds-self old es)
  reconcile-Holds old b (x ∷ xs) (e ∷ es) had h k =
      let same_index : x.index ≡ e.index = h.0 ∙ sym k.0 in
      elim (Bool-cases (x.term ==ℤ e.term)) [
        | inl same ↦ rw same (
            (
              inr (had.0, same_index, ==ℤ→≡ x.term e.term same),
              reconcile-Holds old x.index xs es had.1 h.1
                  (subst (λ i. Contiguous i es) (sym same_index) k.1),
            ))
        | inr differs ↦ rw differs ((inl refl, Holds-self old es))
      ]

  pub All-Memᴰ : (old : List (LogEntry C)) → All (λ x. Memᴰ x old) old
  All-Memᴰ [] = tt
  All-Memᴰ (x ∷ old) =
      (Memᴰ.head refl, All-mono _ _ old (λ y later. Memᴰ.tail later) (All-Memᴰ old))

  -- Entries with the same index and the same term are the same entry.
  abbrev pub LogMatching : List (LogEntry C) → List (LogEntry C) → Type 0
  LogMatching log es =
      All (λ e. (x : LogEntry C) → Memᴰ x log → x.index ≡ e.index → x.term ≡ e.term → x ≡ e) es

  -- Then the log begins with the entries themselves.
  pub Holds-exact :
      (old log es : List (LogEntry C)) → LogMatching old es → Holds old log es → Holds [] log es
  Holds-exact old log [] m h = tt
  Holds-exact old [] (e ∷ es) m h = h
  Holds-exact old (x ∷ log) (e ∷ es) m ((inl same), h) = (inl same, Holds-exact old log es m.1 h)
  Holds-exact old (x ∷ log) (e ∷ es) m ((inr (was, index, term)), h) =
      (inl (m.0 x was index term), Holds-exact old log es m.1 h)
