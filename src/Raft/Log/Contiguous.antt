-- ===== src/Raft/Log/Contiguous.antt =====
-- Logs without gaps: each entry's index is one more than its predecessor's (src/raft/tools.go).
use model_lib.Prelude.{
  ℕ, ◌+◌, ◌≡◌, refl, sym, ap, subst, ◌∙◌, ◌⊎◌, inl, inr, List, [], ◌∷◌, ◌++◌, arith, length,
}
use model_lib.Prelude.Int.{
  ℤ, pos, pos_part, neg_part, ◌≤ℤ◌, ◌<ℤ◌, inc, parts_of_eq, parts_of_ne, int_laws,
}
use model_lib.Raft.Log.{find_index, last_of, FoundAt, Lacks, find_index_cases}
use model_lib.Raft.State.{LogEntry}

module _ {C : Type 0} where
  -- The entries follow index `b`, one by one.
  abbrev pub Contiguous : ℤ → List (LogEntry C) → Type 0
  Contiguous b [] = Unit {0}
  Contiguous b (e ∷ es) = (e.index ≡ inc b) × Contiguous e.index es

  abbrev pub last_index : ℤ → List (LogEntry C) → ℤ
  last_index b [] = b
  last_index b (e ∷ es) = last_index e.index es

  pub last_of-index : (b t : ℤ) (es : List (LogEntry C)) → (last_of b t es).0 ≡ last_index b es
  last_of-index b t [] = refl
  last_of-index b t (e ∷ es) = last_of-index e.index e.term es

  pub last_index-append :
      (b : ℤ) (xs ys : List (LogEntry C))
      → last_index b (xs ++ ys) ≡ last_index (last_index b xs) ys
  last_index-append b [] ys = refl
  last_index-append b (x ∷ xs) ys = last_index-append x.index xs ys

  pub Contiguous-append :
      (b : ℤ) (xs ys : List (LogEntry C))
      → Contiguous b xs
      → Contiguous (last_index b xs) ys
      → Contiguous b (xs ++ ys)
  Contiguous-append b [] ys h k = k
  Contiguous-append b (x ∷ xs) ys h k = (h.0, Contiguous-append x.index xs ys h.1 k)

  pub Contiguous-left :
      (b : ℤ) (xs ys : List (LogEntry C)) → Contiguous b (xs ++ ys) → Contiguous b xs
  Contiguous-left b [] ys h = tt
  Contiguous-left b (x ∷ xs) ys h = (h.0, Contiguous-left x.index xs ys h.1)

  pub Contiguous-right :
      (b : ℤ) (xs ys : List (LogEntry C))
      → Contiguous b (xs ++ ys)
      → Contiguous (last_index b xs) ys
  Contiguous-right b [] ys h = h
  Contiguous-right b (x ∷ xs) ys h = Contiguous-right x.index xs ys h.1

  -- The last index lies as far above the base as the log is long.
  pub last_index_parts :
      (b : ℤ) (es : List (LogEntry C))
      → Contiguous b es
      → pos_part (last_index b es) + neg_part b
        ≡ neg_part (last_index b es) + pos_part b + length es
  last_index_parts b [] h = omega arith
  last_index_parts b (e ∷ es) h = omega (int_laws, last_index_parts e.index es h.1, parts_of_eq h.0)

  pub last_index-le : (b : ℤ) (es : List (LogEntry C)) → Contiguous b es → b ≤ℤ last_index b es
  last_index-le b es h = omega (arith, last_index_parts b es h)

  -- An index above the base and up to the last one is in the log.
  pub Lacks_out :
      (b t : ℤ) (es : List (LogEntry C))
      → Contiguous b es
      → Lacks t es
      → (t ≤ℤ b) ⊎ (last_index b es <ℤ t)
  Lacks_out b t [] h l = omega arith
  Lacks_out b t (e ∷ es) h l = omega (
    int_laws,
    Lacks_out e.index t es h.1 l.1,
    parts_of_eq h.0,
    parts_of_ne e.index t l.0,
    last_index-le e.index es h.1,
  )

  pub not-Lacks :
      (b t : ℤ) (es : List (LogEntry C))
      → Contiguous b es
      → b <ℤ t
      → t ≤ℤ last_index b es
      → ¬ Lacks t es
  not-Lacks b t es h lo hi l = omega (arith, Lacks_out b t es h l)

  pub Lacks-low : (b t : ℤ) (es : List (LogEntry C)) → Contiguous b es → t ≤ℤ b → Lacks t es
  Lacks-low b t [] h lo = tt
  Lacks-low b t (e ∷ es) h lo = (
    (λ q. omega (int_laws, parts_of_eq h.0, parts_of_eq q)),
    Lacks-low e.index t es h.1 (omega (int_laws, parts_of_eq h.0)),
  )

  -- What a search in a contiguous log tells.
  pub record SplitAt (b t : ℤ) (log : List (LogEntry C)) (k : ℕ) (f : FoundAt t log k)
      : Type 0 where
    pub base : inc (last_index b f.before) ≡ t
    pub left : Contiguous b f.before
    pub right : Contiguous t f.after
    pub last : last_index t f.after ≡ last_index b log

  pub FoundAt-SplitAt :
      (b t : ℤ) (log : List (LogEntry C)) (k : ℕ) (f : FoundAt t log k)
      → Contiguous b log
      → SplitAt b t log k f
  FoundAt-SplitAt b t log k f h = record {
    base = sym both.0 ∙ f.has_index;
    left = Contiguous-left b f.before (f.entry ∷ f.after) h';
    right = subst (λ i. Contiguous i f.after) f.has_index both.1;
    last =
        ap (λ i. last_index i f.after) (sym f.has_index)
        ∙ sym (last_index-append b f.before (f.entry ∷ f.after))
        ∙ ap (last_index b) (sym f.split);
  }
    where
      h' : Contiguous b (f.before ++ f.entry ∷ f.after)
      h' = subst (Contiguous b) f.split h

      both : Contiguous (last_index b f.before) (f.entry ∷ f.after)
      both = Contiguous-right b f.before (f.entry ∷ f.after) h'

  -- What a search in a contiguous log finds lies above the base and up to the last index.
  pub FoundAt-above :
      (b t : ℤ) (log : List (LogEntry C)) (k : ℕ)
      → FoundAt t log k
      → Contiguous b log
      → (b <ℤ t) × (t ≤ℤ last_index b log)
  FoundAt-above b t log k f h =
      let s = FoundAt-SplitAt b t log k f h in
      (
        omega (int_laws, parts_of_eq s.base, last_index-le b f.before s.left),
        omega (arith, parts_of_eq s.last, last_index-le t f.after s.right),
      )

  -- A search for an index inside a contiguous log succeeds.
  pub find_index_inside :
      (b t : ℤ) (log : List (LogEntry C))
      → Contiguous b log
      → b <ℤ t
      → t ≤ℤ last_index b log
      → (k : ℕ) × (f : FoundAt t log k) × (find_index log t ≡ pos k) × SplitAt b t log k f
  find_index_inside b t log h lo hi = elim (find_index_cases log t) [
    | inl (_, l) ↦ absurd (not-Lacks b t log h lo hi l)
    | inr (k, e, f) ↦ (k, f, e, FoundAt-SplitAt b t log k f h)
  ]
