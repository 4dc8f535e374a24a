-- ===== src/MapReduce/Grouping.antt =====
-- The loop of src/main/mrsequential.go over the sorted pairs: one line for each key, from all its values.
use model_lib.MapReduce.{KeyValue, front_values, after_front, reduce_groups}
use model_lib.MapReduce.Sorted.{
  values_for, IsSorted, after_front-length, after_front-All, after_front-IsSorted,
  after_front-above, front_values-eq-values_for, values_for-after,
}
use model_lib.Prelude.{
  ℕ, zero, suc, ◌≤◌, ◌≡◌, refl, sym, ap, subst, ap₂, ◌∙◌, inl, inr, false, Option, none, some, List,
  [], ◌∷◌, arith, if◌then◌else◌, if_true, if_false, Bool-cases, some-injective, length, All,
}
use model_lib.Prelude.Strings.{same_bytes, bytes_le, same_bytes→≡}
use mathlib.Core.Option

-- No key comes before the one to the left of it, and none twice.
abbrev pub KeysAscend : List (List ℕ × List ℕ) → Type 0
KeysAscend [] = Unit {0}
KeysAscend (line ∷ lines) = All (λ l. bytes_le l.0 line.0 ≡ false) lines × KeysAscend lines

abbrev pub line_of : List ℕ → List (List ℕ × List ℕ) → Option (List ℕ)
line_of key [] = none
line_of key (line ∷ lines) =
    let more = line_of key lines in if same_bytes line.0 key then some line.1 else more

module _ (reducef : List ℕ → List (List ℕ) → List ℕ) where
  abbrev pub output_for : List ℕ → List (List ℕ) → Option (List ℕ)
  output_for key [] = none
  output_for key (v ∷ vs) = some (reducef key (v ∷ vs))

  -- The lines have the keys of the pairs.
  reduce_groups-All :
      (P : List ℕ → Type 0) (fuel : ℕ) (kvs : List KeyValue)
      → All (λ kv. P kv.key) kvs
      → (lines : List (List ℕ × List ℕ)) → reduce_groups reducef fuel kvs ≡ some lines
      → All (λ line. P line.0) lines
  unfolding reduce_groups
  reduce_groups-All P fuel [] h lines e = subst (All _) (some-injective e) tt
  reduce_groups-All P zero (kv ∷ kvs) h lines e = cc
  reduce_groups-All P (suc fuel) (kv ∷ kvs) h lines e =
      each (reduce_groups reducef fuel (after_front kv.key kvs))
        (reduce_groups-All P fuel (after_front kv.key kvs) (after_front-All _ kv.key kvs h.1)) e
    where
      each :
          (rest : Option (List (List ℕ × List ℕ)))
          → ((more : List (List ℕ × List ℕ)) → rest ≡ some more → All (λ line. P line.0) more)
          → Option.map (λ l. (kv.key, reducef kv.key (kv.value ∷ front_values kv.key kvs)) ∷ l) rest
            ≡ some lines
          → All (λ line. P line.0) lines
      each none ih e = cc
      each (some more) ih e =
          let first : All (λ line. P line.0)
              ((kv.key, reducef kv.key (kv.value ∷ front_values kv.key kvs)) ∷ more) =
            (h.0, ih more refl) in
          subst (All (λ line. P line.0)) (some-injective e) first

  -- A line before the others.
  line_of-first :
      (kv : KeyValue) (kvs : List KeyValue) (lines : List (List ℕ × List ℕ)) (key : List ℕ)
      → IsSorted (kv ∷ kvs)
      → line_of key lines ≡ output_for key (values_for key (after_front kv.key kvs))
      → line_of key ((kv.key, reducef kv.key (kv.value ∷ front_values kv.key kvs)) ∷ lines)
        ≡ output_for key (values_for key (kv ∷ kvs))
  line_of-first kv kvs lines key s ih = elim (Bool-cases (same_bytes kv.key key)) [
    | inl same ↦
        let key≡ = same_bytes→≡ kv.key key same in
        if_true _ _ same
        ∙ ap₂ (λ k vs. some (reducef k (kv.value ∷ vs))) key≡
            (front_values-eq-values_for kv.key kvs s.0 s.1 ∙ ap (λ k. values_for k kvs) key≡)
        ∙ sym (ap (output_for key) (if_true _ _ same))
    | inr other ↦
        if_false _ _ other
        ∙ ih
        ∙ ap (output_for key) (values_for-after kv.key key kvs other ∙ sym (if_false _ _ other))
  ]

  pub record Grouped (kvs : List KeyValue) (lines : List (List ℕ × List ℕ)) : Type 0 where
    pub ascend : KeysAscend lines
    pub each : (key : List ℕ) → line_of key lines ≡ output_for key (values_for key kvs)

  -- On sorted pairs the loop ends within as many rounds as there are pairs, with the keys of its
  -- lines ascending, and with a line for a key exactly where a pair has the key: what `reducef` makes
  -- of the key and all its values in the order of the pairs.
  pub reduce_groups-Grouped :
      (fuel : ℕ) (kvs : List KeyValue)
      → length kvs ≤ fuel
      → IsSorted kvs
      → (lines : List (List ℕ × List ℕ)) × (reduce_groups reducef fuel kvs ≡ some lines)
        × Grouped kvs lines
  unfolding reduce_groups
  reduce_groups-Grouped fuel [] le s = ([], refl, record { ascend = tt; each = λ key. refl })
  reduce_groups-Grouped zero (kv ∷ kvs) le s = absurd (omega arith)
  reduce_groups-Grouped (suc fuel) (kv ∷ kvs) le s =
      let (lines, found, grouped) =
        reduce_groups-Grouped fuel (after_front kv.key kvs)
          (omega (arith, after_front-length kv.key kvs)) (after_front-IsSorted kv.key kvs s.1) in
      let output = reducef kv.key (kv.value ∷ front_values kv.key kvs) in
      (
        (kv.key, output) ∷ lines,
        ap (Option.map (λ l. (kv.key, output) ∷ l)) found,
        record {
          ascend = (
            reduce_groups-All (λ k. bytes_le k kv.key ≡ false) fuel (after_front kv.key kvs)
                (after_front-above kv.key kvs s.0 s.1) lines found,
            grouped.ascend,
          );
          each = λ key. line_of-first kv kvs lines key s (grouped.each key);
        },
      )
