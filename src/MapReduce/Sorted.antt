-- ===== src/MapReduce/Sorted.antt =====
-- The sorted pairs of src/main/mrsequential.go: the values of the first key stand at the front.
-- The values of the pairs with the key, in order: what the line of the key is made from.
use model_lib.MapReduce.{KeyValue, front_values, after_front}
use model_lib.Prelude.{
  ℕ, ◌≤◌, ◌≡◌, refl, sym, ap, subst, ◌∙◌, inl, inr, true, false, List, [], ◌∷◌, arith,
  if◌then◌else◌, if_false, if_cases, Bool-cases, length, All, All-mono,
}
use model_lib.Prelude.Strings.{
  same_bytes, bytes_le, same_bytes→≡, same_bytes_refl, bytes_le_refl, bytes_le_trans,
  bytes_le_antisymm,
}

abbrev pub values_for : List ℕ → List KeyValue → List (List ℕ)
values_for key [] = []
values_for key (kv ∷ kvs) =
    let more = values_for key kvs in if same_bytes kv.key key then kv.value ∷ more else more

abbrev pub KeyLe : KeyValue → KeyValue → Type 0
KeyLe a b = bytes_le a.key b.key ≡ true

abbrev pub IsSorted : List KeyValue → Type 0
IsSorted [] = Unit {0}
IsSorted (kv ∷ kvs) = All (KeyLe kv) kvs × IsSorted kvs

pub after_front-length :
    (key : List ℕ) (kvs : List KeyValue) → length (after_front key kvs) ≤ length kvs
after_front-length key [] = omega arith
after_front-length key (kv ∷ kvs) = ground (arith, after_front-length key kvs)

pub after_front-All {κ} :
    (P : KeyValue → Type κ) (key : List ℕ) (kvs : List KeyValue)
    → All P kvs
    → All P (after_front key kvs)
after_front-All P key [] h = tt
after_front-All P key (kv ∷ kvs) h =
    if_cases (All P) (same_bytes kv.key key) _ _ (λ _. after_front-All P key kvs h.1) (λ _. h)

pub after_front-IsSorted :
    (key : List ℕ) (kvs : List KeyValue) → IsSorted kvs → IsSorted (after_front key kvs)
after_front-IsSorted key [] h = tt
after_front-IsSorted key (kv ∷ kvs) h =
    if_cases IsSorted (same_bytes kv.key key) _ _ (λ _. after_front-IsSorted key kvs h.1) (λ _. h)

-- A greater key is not the key, and no pair behind it has the key.
above :
    (key : List ℕ) (kv : KeyValue)
    → bytes_le key kv.key ≡ true
    → same_bytes kv.key key ≡ false
    → bytes_le kv.key key ≡ false
above key kv le other = ground (arith, bytes_le_antisymm key kv.key, same_bytes_refl key)

above_trans :
    (key : List ℕ) (a b : KeyValue)
    → bytes_le a.key key ≡ false
    → KeyLe a b
    → bytes_le b.key key ≡ false
above_trans key a b above le = ground (arith, bytes_le_trans a.key b.key key)

pub after_front-above :
    (key : List ℕ) (kvs : List KeyValue)
    → All (λ kv. bytes_le key kv.key ≡ true) kvs
    → IsSorted kvs
    → All (λ kv. bytes_le kv.key key ≡ false) (after_front key kvs)
after_front-above key [] h s = tt
after_front-above key (kv ∷ kvs) h s =
    if_cases (All (λ kv. bytes_le kv.key key ≡ false)) (same_bytes kv.key key) _ _
      (λ _. after_front-above key kvs h.1 s.1)
      λ other.
        let first = above key kv h.0 other in
        (first, All-mono _ _ kvs (λ b le. above_trans key kv b first le) s.0)

above_differs :
    (key : List ℕ) (kv : KeyValue) → bytes_le kv.key key ≡ false → same_bytes kv.key key ≡ false
above_differs key kv h = ground (arith, same_bytes→≡ kv.key key, bytes_le_refl key)

values_for-none :
    (key : List ℕ) (kvs : List KeyValue)
    → All (λ kv. bytes_le kv.key key ≡ false) kvs
    → values_for key kvs ≡ []
values_for-none key [] h = refl
values_for-none key (kv ∷ kvs) h =
    if_false _ _ (above_differs key kv h.0) ∙ values_for-none key kvs h.1

-- In a sorted list the values of the least key stand at the front.
pub front_values-eq-values_for :
    (key : List ℕ) (kvs : List KeyValue)
    → All (λ kv. bytes_le key kv.key ≡ true) kvs
    → IsSorted kvs
    → front_values key kvs ≡ values_for key kvs
front_values-eq-values_for key [] h s = refl
front_values-eq-values_for key (kv ∷ kvs) h s = elim (Bool-cases (same_bytes kv.key key)) [
  | inl same ↦ rw same (ap (◌∷◌ kv.value) (front_values-eq-values_for key kvs h.1 s.1))
  | inr other ↦
      let first = above key kv h.0 other in
      let rest = All-mono _ _ kvs (λ b le. above_trans key kv b first le) s.0 in
      rw other (sym (values_for-none key kvs rest))
]

-- The other keys' values stand behind them.
pub values_for-after :
    (key k : List ℕ) (kvs : List KeyValue)
    → same_bytes key k ≡ false
    → values_for k (after_front key kvs) ≡ values_for k kvs
values_for-after key k [] other = refl
values_for-after key k (kv ∷ kvs) other = elim (Bool-cases (same_bytes kv.key key)) [
  | inl same ↦
      let differs : same_bytes kv.key k ≡ false =
        subst (λ x. same_bytes x k ≡ false) (sym (same_bytes→≡ kv.key key same)) other in
      rw (same, differs) (values_for-after key k kvs other)
  | inr here ↦ rw here
]
