-- ===== src/Raft/Log.antt =====
-- Searching the log: src/raft/tools.go.
pub mod Contiguous
use model_lib.Prelude.{
  ℕ, suc, ◌+◌, ◌≡◌, refl, ap, ◌∙◌, ◌≢◌, ◌⊎◌, inl, inr, List, [], ◌∷◌, ◌++◌, arith, if◌then◌else◌,
  Bool-cases, length, All,
}
use model_lib.Prelude.Int.{ℤ, pos, minus_one, ◌==ℤ◌, ==ℤ→≡, ==ℤ→≢}
use model_lib.Raft.State.{LogEntry, Raft}

module _ {C : Type 0} where
  abbrev pub find_index_from : ℕ → List (LogEntry C) → ℤ → ℤ
  find_index_from i [] target = minus_one
  find_index_from i (e ∷ es) target =
      if e.index ==ℤ target then pos i else find_index_from (suc i) es target

  -- The position of the entry with index `target`, or -1.
  unfoldable pub find_index : List (LogEntry C) → ℤ → ℤ
  find_index log target = find_index_from 0 log target

  -- The last entry's index and term, or those of the snapshot.
  abbrev pub last_of : ℤ → ℤ → List (LogEntry C) → ℤ × ℤ
  last_of i t [] = (i, t)
  last_of i t (e ∷ es) = last_of e.index e.term es

  unfoldable pub get_last_log_index_and_term : Raft C → ℤ × ℤ
  get_last_log_index_and_term rf = last_of rf.snapshot_index rf.snapshot_term rf.log

  -- The index that the search returns splits the log at the first entry with that index.
  pub record FoundAt (target : ℤ) (log : List (LogEntry C)) (position : ℕ) : Type 0 where
    pub before : List (LogEntry C)
    pub entry : LogEntry C
    pub after : List (LogEntry C)
    pub split : log ≡ before ++ entry ∷ after
    pub at : length before ≡ position
    pub has_index : entry.index ≡ target
    pub earlier : All (λ e. e.index ≢ target) before

  abbrev pub Lacks : ℤ → List (LogEntry C) → Type 0
  Lacks target log = All (λ e. e.index ≢ target) log

  find_index_from_cases :
      (i : ℕ) (log : List (LogEntry C)) (target : ℤ)
      → ((find_index_from i log target ≡ minus_one) × Lacks target log)
        ⊎ ((k : ℕ) × (find_index_from i log target ≡ pos (k + i)) × FoundAt target log k)
  find_index_from_cases i [] target = inl (refl, tt)
  find_index_from_cases i (e ∷ es) target = elim (Bool-cases (e.index ==ℤ target)) [
    | inl hit ↦ inr (
      0,
      rw hit (ap pos (omega arith)),
      record {
        before = [];
        entry = e;
        after = es;
        split = refl;
        at = refl;
        has_index = ==ℤ→≡ e.index target hit;
        earlier = tt;
      },
    )
    | inr miss ↦ elim (find_index_from_cases (suc i) es target) [
      | inl (lost, rest) ↦ inl (rw miss lost, (==ℤ→≢ e.index target miss, rest))
      | inr (k, found, f) ↦ inr (
        suc k,
        rw miss (found ∙ ap pos (omega arith)),
        record {
          before = e ∷ f.before;
          entry = f.entry;
          after = f.after;
          split = ap (◌∷◌ e) f.split;
          at = ap suc f.at;
          has_index = f.has_index;
          earlier = (==ℤ→≢ e.index target miss, f.earlier);
        },
      )
    ]
  ]

  -- Either no entry has the index, or the search returns the position of the first that has it.
  pub find_index_cases :
      (log : List (LogEntry C)) (target : ℤ)
      → ((find_index log target ≡ minus_one) × Lacks target log)
        ⊎ ((k : ℕ) × (find_index log target ≡ pos k) × FoundAt target log k)
  unfolding find_index
  find_index_cases log target = elim (find_index_from_cases 0 log target) [
    | inl l ↦ inl l
    | inr (k, found, f) ↦ inr (k, found ∙ ap pos (omega arith), f)
  ]
