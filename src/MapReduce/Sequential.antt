-- ===== src/MapReduce/Sequential.antt =====
-- The program of src/main/mrsequential.go as a whole.
use model_lib.MapReduce.{
  finish, KeyValue, Fatal, cannot_open, cannot_read, done, exits, Contents, unopened, unread, holds,
  map_files, sequential,
}
use model_lib.MapReduce.Grouping.{KeysAscend, line_of, output_for, reduce_groups-Grouped}
use model_lib.MapReduce.Sorted.{values_for, IsSorted}
use model_lib.Prelude.{
  ℕ, ◌≡◌, refl, sym, ap, subst, subst₂, ◌∙◌, ◌⊎◌, inl, inr, some, List, [], ◌∷◌, ◌++◌, arith,
  Bool-cases, length, All,
}
use model_lib.Prelude.Strings.{same_bytes}
use mathlib.Core.List.{Permᴰ}
use mathlib.Core.List.Permᴰ

-- What sort.Sort promises of ByKey: the same pairs, ordered by key. Pairs of one key may stand in
-- any order.
pub record SortLaws (sort : List KeyValue → List KeyValue) : Type 0 where
  pub perm : (kvs : List KeyValue) → Permᴰ (sort kvs) kvs
  pub sorted : (kvs : List KeyValue) → IsSorted (sort kvs)

values_for-cons :
    (key : List ℕ) (a b : KeyValue) (xs ys : List KeyValue)
    → a ≡ b
    → Permᴰ (values_for key xs) (values_for key ys)
    → Permᴰ (values_for key (a ∷ xs)) (values_for key (b ∷ ys))
values_for-cons key a b xs ys e p =
    subst (λ x. Permᴰ (values_for key (a ∷ xs)) (values_for key (x ∷ ys))) e
      (elim (Bool-cases (same_bytes a.key key)) [
        | inl same ↦ rw same (Permᴰ.cons refl p)
        | inr other ↦ rw other p
      ])

values_for-swap :
    (key : List ℕ) (a b : KeyValue) (xs : List KeyValue)
    → Permᴰ (values_for key (a ∷ b ∷ xs)) (values_for key (b ∷ a ∷ xs))
values_for-swap key a b xs = elim (Bool-cases (same_bytes a.key key)) [
  | inl ha ↦ elim (Bool-cases (same_bytes b.key key)) [
    | inl hb ↦ rw (ha, hb) (Permᴰ.swap refl refl)
    | inr hb ↦ rw (ha, hb) (Permᴰ.refl _)
  ]
  | inr ha ↦ rw ha (Permᴰ.refl _)
]

pub values_for-perm :
    (key : List ℕ) {xs ys : List KeyValue}
    → Permᴰ xs ys
    → Permᴰ (values_for key xs) (values_for key ys)
values_for-perm key Permᴰ.nil = Permᴰ.nil
values_for-perm key (Permᴰ.cons {a} {b} {l₁} {l₂} e p) =
    values_for-cons key a b l₁ l₂ e (values_for-perm key p)
values_for-perm key (Permᴰ.swap {a} {b} {a'} {b'} {l} e f) =
    subst₂ (λ x y. Permᴰ (values_for key (a ∷ b ∷ l)) (values_for key (x ∷ y ∷ l))) f e
      (values_for-swap key a b l)
values_for-perm key (Permᴰ.trans p q) = Permᴰ.trans (values_for-perm key p) (values_for-perm key q)

abbrev pub AllRead : (List ℕ → Contents) → List (List ℕ) → Type 0
AllRead read = All (λ name. (contents : List ℕ) × (read name ≡ holds contents))

-- The ways in which a file fails.
abbrev pub Fails : (List ℕ → Contents) → List ℕ → Fatal → Type 0
Fails read name fatal =
    ((read name ≡ unopened) × (fatal ≡ cannot_open name))
    ⊎ ((read name ≡ unread) × (fatal ≡ cannot_read name))

module _ (mapf : List ℕ → List ℕ → List KeyValue) (reducef : List ℕ → List (List ℕ) → List ℕ)
    (read : List ℕ → Contents) (sort : List KeyValue → List KeyValue) where
  -- The lines of a run over the pairs `kvs`.
  pub record Reduced (kvs : List KeyValue) (lines : List (List ℕ × List ℕ)) : Type 0 where
    pub ascend : KeysAscend lines
    pub each :
        (key : List ℕ)
        → (values : List (List ℕ)) × Permᴰ values (values_for key kvs)
          × (line_of key lines ≡ output_for reducef key values)

  -- A run over the pairs that the files have given.
  pub map_files-Reduced :
      (laws : SortLaws sort) (name : List ℕ) (names : List (List ℕ)) (kvs : List KeyValue)
      → map_files mapf read (name ∷ names) ≡ done kvs
      → (lines : List (List ℕ × List ℕ)) × (sequential mapf reducef read sort (name ∷ names)
          ≡ done (some lines))
        × Reduced kvs lines
  unfolding sequential
  map_files-Reduced laws name names kvs e =
      let (lines, found, grouped) =
        reduce_groups-Grouped reducef (length (sort kvs)) (sort kvs) (omega arith)
          (laws.sorted kvs) in
      (
        lines,
        ap (finish mapf reducef read sort) e ∙ ap done found,
        record {
          ascend = grouped.ascend;
          each = λ key.
              (values_for key (sort kvs), values_for-perm key (laws.perm kvs), grouped.each key);
        },
      )

  -- The pairs that `mapf` emits for a file, and for the files one after the other.
  abbrev pub emitted_by : List ℕ → Contents → List KeyValue
  emitted_by name (holds contents) = mapf name contents
  emitted_by name unopened = []
  emitted_by name unread = []

  abbrev pub emitted : List (List ℕ) → List KeyValue
  emitted [] = []
  emitted (name ∷ names) = emitted_by name (read name) ++ emitted names

  map_files-emitted :
      (names : List (List ℕ))
      → AllRead read names
      → map_files mapf read names ≡ done (emitted names)
  unfolding map_files
  map_files-emitted [] all = refl
  map_files-emitted (name ∷ names) ((contents, e), all) = rw (e, map_files-emitted names all)

  -- Let the sort give the pairs that it was given, ordered by key, and let every file be read. Then
  -- the run on at least one file ends with its lines written, their keys ascending, and with a line
  -- for a key exactly where `mapf` has emitted the key for some file: what `reducef` makes of the key
  -- and all the values that `mapf` has emitted for it, for all the files, in some order.
  pub sequential-Reduced :
      (laws : SortLaws sort) (name : List ℕ) (names : List (List ℕ))
      → AllRead read (name ∷ names)
      → (lines : List (List ℕ × List ℕ)) × (sequential mapf reducef read sort (name ∷ names)
          ≡ done (some lines))
        × Reduced (emitted (name ∷ names)) lines
  sequential-Reduced laws name names all =
      map_files-Reduced laws name names (emitted (name ∷ names))
        (map_files-emitted (name ∷ names) all)

  map_files-exits :
      (before after : List (List ℕ)) (bad : List ℕ) (fatal : Fatal)
      → AllRead read before
      → Fails read bad fatal
      → map_files mapf read (before ++ bad ∷ after) ≡ exits fatal
  unfolding map_files
  map_files-exits [] after bad fatal all (inl (e, f)) = rw e (ap exits (sym f))
  map_files-exits [] after bad fatal all (inr (e, f)) = rw e (ap exits (sym f))
  map_files-exits (name ∷ before) after bad fatal ((contents, e), all) fails =
      rw (e, map_files-exits before after bad fatal all fails)

  -- The first file that cannot be opened or read ends the program; nothing is written.
  pub sequential-exits :
      (before after : List (List ℕ)) (bad : List ℕ) (fatal : Fatal)
      → AllRead read before
      → Fails read bad fatal
      → sequential mapf reducef read sort (before ++ bad ∷ after) ≡ exits fatal
  unfolding sequential
  sequential-exits [] after bad fatal all fails =
      ap (finish mapf reducef read sort) (map_files-exits [] after bad fatal all fails)
  sequential-exits (name ∷ before) after bad fatal all fails =
      ap (finish mapf reducef read sort) (map_files-exits (name ∷ before) after bad fatal all fails)
