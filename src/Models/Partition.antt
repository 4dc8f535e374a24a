-- ===== src/Models/Partition.antt =====
-- What the partition of a history by key gives: src/models/kv.go.
use model_lib.Models.{KvInput, add_operation, group_by_key, operations_of, keys_of, partition}
use model_lib.Models.Keys.{
  Ascending, sort_strings-All, sort_strings-Ascending, sort_strings-Memᴰ, group_by_key-Distinct,
  group_by_key-All, group_by_key-covers,
}
use model_lib.Prelude.{
  ℕ, ◌≡◌, refl, sym, ap, subst, ap₂, ◌∙◌, ◌≢◌, inl, inr, true, false, List, [], ◌∷◌, ◌++◌, map,
  append-nil, append_assoc, if◌then◌else◌, if_true, if_false, Bool-cases, All, All-mono,
}
use model_lib.Prelude.Strings.{same_bytes, sort_strings, same_bytes→≡, same_bytes_refl}
use mathlib.Core.List.{Memᴰ}

module _ {O : Type 0} (input : O → KvInput) where
  -- The operations of a history on one key, in order.
  abbrev pub on_key : List ℕ → List O → List O
  on_key k [] = []
  on_key k (v ∷ history) =
      let rest = on_key k history in if same_bytes k (input v).key then v ∷ rest else rest

  operations_of-add :
      (k : List ℕ) (v : O) (m : List (List ℕ × List O))
      → operations_of k (add_operation input v m)
        ≡ operations_of k m ++ (if same_bytes k (input v).key then v ∷ [] else [])
  operations_of-add k v [] = elim (Bool-cases (same_bytes k (input v).key)) [
    | inl mine ↦ rw mine
    | inr other ↦ rw other
  ]
  operations_of-add k v ((k', ops) ∷ m) = elim (Bool-cases (same_bytes k' (input v).key)) [
    | inl here ↦
        let key≡ = same_bytes→≡ k' (input v).key here in
        rw (here, ← key≡)
          (elim (Bool-cases (same_bytes k k')) [
            | inl mine ↦ rw mine
            | inr other ↦ rw other (sym (append-nil (operations_of k m)))
          ])
    | inr there ↦ rw there (elim (Bool-cases (same_bytes k k')) [
      | inl mine ↦
          let differs : same_bytes k (input v).key ≡ false =
            subst (λ x. same_bytes x (input v).key ≡ false) (sym (same_bytes→≡ k k' mine)) there in
          rw (mine, differs) (sym (append-nil ops))
      | inr other ↦ rw other (operations_of-add k v m)
    ])
  ]

  operations_of-group :
      (k : List ℕ) (history : List O) (m : List (List ℕ × List O))
      → operations_of k (group_by_key input history m) ≡ operations_of k m ++ on_key k history
  unfolding group_by_key
  operations_of-group k [] m = sym (append-nil (operations_of k m))
  operations_of-group k (v ∷ history) m =
      operations_of-group k history (add_operation input v m)
      ∙ ap (λ l. l ++ on_key k history) (operations_of-add k v m)
      ∙ append_assoc (operations_of k m) _ (on_key k history)
      ∙ ap (λ l. operations_of k m ++ l)
          (elim (Bool-cases (same_bytes k (input v).key)) [
            | inl mine ↦ rw mine
            | inr other ↦ rw other
          ])

  partition-sorted :
      (history : List O)
      → partition input history
        ≡ map (λ k. on_key k history) (sort_strings (keys_of (group_by_key input history [])))
  unfolding partition
  partition-sorted history = each (sort_strings (keys_of (group_by_key input history [])))
    where
      each :
          (ks : List (List ℕ))
          → map (λ k. operations_of k (group_by_key input history [])) ks
            ≡ map (λ k. on_key k history) ks
      each [] = refl
      each (k ∷ ks) = ap₂ (λ p ps. p ∷ ps) (operations_of-group k history []) (each ks)

  on_key-some :
      (k : List ℕ) (v : O) (history : List O)
      → same_bytes k (input v).key ≡ true
      → on_key k (v ∷ history) ≢ []
  on_key-some k v history same e =
      let first : v ∷ on_key k history ≡ [] = sym (if_true _ _ same) ∙ e in cc

  on_key-more :
      (k : List ℕ) (v : O) (history : List O) → on_key k history ≢ [] → on_key k (v ∷ history) ≢ []
  on_key-more k v history h = elim (Bool-cases (same_bytes k (input v).key)) [
    | inl mine ↦ on_key-some k v history mine
    | inr other ↦ λ e. h (sym (if_false _ _ other) ∙ e)
  ]

  each_occurs : (history : List O) → All (λ v. on_key (input v).key history ≢ []) history
  each_occurs [] = tt
  each_occurs (v ∷ history) = (
    on_key-some (input v).key v history (same_bytes_refl (input v).key),
    All-mono _ _ history (λ w h. on_key-more (input w).key v history h) (each_occurs history),
  )

  -- The partition of a history has one part for each key: the operations of the history on that
  -- key, in the history's order. The keys of the parts ascend, so that no two are the same; they are
  -- the keys of the history's operations, every one of them, and no other.
  pub partition-on_key :
      (history : List O)
      → (keys : List (List ℕ)) × (partition input history ≡ map (λ k. on_key k history) keys)
        × Ascending keys
        × All (λ v. Memᴰ (input v).key keys) history
        × All (λ k. on_key k history ≢ []) keys
  partition-on_key history =
      let found = keys_of (group_by_key input history []) in
      (
        sort_strings found,
        partition-sorted history,
        sort_strings-Ascending found (group_by_key-Distinct input history [] tt),
        All-mono _ _ history (λ v m. sort_strings-Memᴰ (input v).key found m)
            (group_by_key-covers input history []),
        sort_strings-All _ found (group_by_key-All input _ history [] tt (each_occurs history)),
      )
