-- ===== src/Models/Keys.antt =====
-- The keys of a partitioned history: each of them once, in ascending order (src/models/kv.go).
use model_lib.Models.{KvInput, add_operation, group_by_key, keys_of}
use model_lib.Prelude.{
  ℕ, ◌≡◌, refl, sym, ap, subst, ◌≢◌, inl, inr, true, false, List, [], ◌∷◌, ◌++◌, arith, if_cases,
  Bool-cases, All, All-append, All-mono,
}
use model_lib.Prelude.Strings.{
  same_bytes, bytes_le, insert_string, sort_strings, same_bytes→≡, same_bytes_refl, bytes_le_trans,
  bytes_le_antisymm,
}
use mathlib.Core.List.{Memᴰ}

-- No text stands twice.
abbrev pub Distinct : List (List ℕ) → Type 0
Distinct [] = Unit {0}
Distinct (x ∷ xs) = All (λ y. y ≢ x) xs × Distinct xs

-- No text comes before the one to the left of it, and none twice.
abbrev pub Ascending : List (List ℕ) → Type 0
Ascending [] = Unit {0}
Ascending (x ∷ xs) = All (λ y. bytes_le y x ≡ false) xs × Ascending xs

Distinct-snoc :
    (xs : List (List ℕ)) (k : List ℕ) → All (λ y. y ≢ k) xs → Distinct xs → Distinct (xs ++ k ∷ [])
Distinct-snoc [] k new d = (tt, tt)
Distinct-snoc (x ∷ xs) k new d =
    (All-append _ xs (k ∷ []) d.0 ((λ e. new.0 (sym e)), tt), Distinct-snoc xs k new.1 d.1)

insert_string-All {κ} :
    (P : List ℕ → Type κ) (k : List ℕ) (xs : List (List ℕ))
    → P k
    → All P xs
    → All P (insert_string k xs)
insert_string-All P k [] p h = (p, tt)
insert_string-All P k (x ∷ xs) p h =
    if_cases (All P) (bytes_le k x) _ _ (λ _. (p, h)) (λ _. (h.0, insert_string-All P k xs p h.1))

pub sort_strings-All {κ} :
    (P : List ℕ → Type κ) (xs : List (List ℕ)) → All P xs → All P (sort_strings xs)
unfolding sort_strings
sort_strings-All P [] h = tt
sort_strings-All P (x ∷ xs) h =
    insert_string-All P x (sort_strings xs) h.0 (sort_strings-All P xs h.1)

-- What a text that comes first is before.
before_all : (k x y : List ℕ) → bytes_le k x ≡ true → bytes_le y x ≡ false → bytes_le y k ≡ false
before_all k x y le gt = ground (arith, bytes_le_trans y k x)

before_first : (k x : List ℕ) → x ≢ k → bytes_le k x ≡ true → bytes_le x k ≡ false
before_first k x new le = elim (Bool-cases (bytes_le x k)) [
  | inl ge ↦ absurd (new (bytes_le_antisymm x k ge le))
  | inr gt ↦ gt
]

insert_string-Ascending :
    (k : List ℕ) (xs : List (List ℕ))
    → All (λ y. y ≢ k) xs
    → Ascending xs
    → Ascending (insert_string k xs)
insert_string-Ascending k [] new h = (tt, tt)
insert_string-Ascending k (x ∷ xs) new h =
    if_cases Ascending (bytes_le k x) _ _
      (λ le. ((before_first k x new.0 le, All-mono _ _ xs (λ y gt. before_all k x y le gt) h.0), h))
      (λ gt. (insert_string-All _ k xs gt h.0, insert_string-Ascending k xs new.1 h.1))

pub sort_strings-Ascending : (xs : List (List ℕ)) → Distinct xs → Ascending (sort_strings xs)
unfolding sort_strings
sort_strings-Ascending [] d = tt
sort_strings-Ascending (x ∷ xs) d =
    insert_string-Ascending x (sort_strings xs) (sort_strings-All _ xs d.0)
      (sort_strings-Ascending xs d.1)

insert_string-first : (k : List ℕ) (xs : List (List ℕ)) → Memᴰ k (insert_string k xs)
insert_string-first k [] = Memᴰ.head refl
insert_string-first k (x ∷ xs) =
    if_cases (Memᴰ k) (bytes_le k x) _ _ (λ _. Memᴰ.head refl)
      (λ _. Memᴰ.tail (insert_string-first k xs))

insert_string-rest : (a k : List ℕ) (xs : List (List ℕ)) → Memᴰ a xs → Memᴰ a (insert_string k xs)
insert_string-rest a k [] m = Memᴰ.tail m
insert_string-rest a k (x ∷ xs) (Memᴰ.head e) =
    if_cases (Memᴰ a) (bytes_le k x) _ _ (λ _. Memᴰ.tail (Memᴰ.head e)) (λ _. Memᴰ.head e)
insert_string-rest a k (x ∷ xs) (Memᴰ.tail m) =
    if_cases (Memᴰ a) (bytes_le k x) _ _ (λ _. Memᴰ.tail (Memᴰ.tail m))
      (λ _. Memᴰ.tail (insert_string-rest a k xs m))

pub sort_strings-Memᴰ : (a : List ℕ) (xs : List (List ℕ)) → Memᴰ a xs → Memᴰ a (sort_strings xs)
unfolding sort_strings
sort_strings-Memᴰ a [] m = m
sort_strings-Memᴰ a (x ∷ xs) (Memᴰ.head e) =
    subst (λ y. Memᴰ y (insert_string x (sort_strings xs))) (sym e)
      (insert_string-first x (sort_strings xs))
sort_strings-Memᴰ a (x ∷ xs) (Memᴰ.tail m) =
    insert_string-rest a x (sort_strings xs) (sort_strings-Memᴰ a xs m)

module _ {O : Type 0} (input : O → KvInput) where
  -- An operation leaves the keys as they are, if its key is one of them, or appends its key.
  data Keys (v : O) (m : List (List ℕ × List O)) : Type 0 where
    had : Memᴰ (input v).key (keys_of m) → keys_of (add_operation input v m) ≡ keys_of m → Keys v m
    new :
        All (λ y. y ≢ (input v).key) (keys_of m)
        → keys_of (add_operation input v m) ≡ keys_of m ++ (input v).key ∷ []
        → Keys v m

  add_operation-Keys : (v : O) (m : List (List ℕ × List O)) → Keys v m
  add_operation-Keys v [] = new tt refl
  add_operation-Keys v ((k, ops) ∷ m) = elim (Bool-cases (same_bytes k (input v).key)) [
    | inl same ↦ had (Memᴰ.head (sym (same_bytes→≡ k (input v).key same))) (rw same)
    | inr other ↦
        let differs : k ≢ (input v).key = λ e. differ k (input v).key other e in
        elim (add_operation-Keys v m) [
          | had is e ↦ had (Memᴰ.tail is) (rw other (ap (◌∷◌ k) e))
          | new fresh e ↦ new (differs, fresh) (rw other (ap (◌∷◌ k) e))
        ]
  ]
    where
      differ : (a b : List ℕ) → same_bytes a b ≡ false → a ≢ b
      differ a b ne e =
          let same : same_bytes a b ≡ true =
            subst (λ x. same_bytes a x ≡ true) e (same_bytes_refl a) in
          cc

  Keys-Distinct :
      (v : O) (m : List (List ℕ × List O))
      → Keys v m
      → Distinct (keys_of m)
      → Distinct (keys_of (add_operation input v m))
  Keys-Distinct v m (had is e) d = subst Distinct (sym e) d
  Keys-Distinct v m (new fresh e) d =
      subst Distinct (sym e) (Distinct-snoc (keys_of m) (input v).key fresh d)

  Keys-All {κ} :
      (P : List ℕ → Type κ) (v : O) (m : List (List ℕ × List O))
      → Keys v m
      → P (input v).key
      → All P (keys_of m)
      → All P (keys_of (add_operation input v m))
  Keys-All P v m (had is e) p h = subst (All P) (sym e) h
  Keys-All P v m (new fresh e) p h = subst (All P) (sym e) (All-append P (keys_of m) _ h (p, tt))

  pub group_by_key-Distinct :
      (history : List O) (m : List (List ℕ × List O))
      → Distinct (keys_of m)
      → Distinct (keys_of (group_by_key input history m))
  unfolding group_by_key
  group_by_key-Distinct [] m d = d
  group_by_key-Distinct (v ∷ history) m d =
      group_by_key-Distinct history (add_operation input v m)
        (Keys-Distinct v m (add_operation-Keys v m) d)

  pub group_by_key-All {κ} :
      (P : List ℕ → Type κ) (history : List O) (m : List (List ℕ × List O))
      → All P (keys_of m)
      → All (λ v. P (input v).key) history
      → All P (keys_of (group_by_key input history m))
  unfolding group_by_key
  group_by_key-All P [] m h k = h
  group_by_key-All P (v ∷ history) m h k =
      group_by_key-All P history (add_operation input v m)
        (Keys-All P v m (add_operation-Keys v m) k.0 h) k.1

  append-Memᴰ : (a : List ℕ) (xs ys : List (List ℕ)) → Memᴰ a xs → Memᴰ a (xs ++ ys)
  append-Memᴰ a [] ys m = elim m [ ]
  append-Memᴰ a (x ∷ xs) ys (Memᴰ.head e) = Memᴰ.head e
  append-Memᴰ a (x ∷ xs) ys (Memᴰ.tail m) = Memᴰ.tail (append-Memᴰ a xs ys m)

  -- A key that is there stays, and an operation's key is there afterwards.
  group_by_key-stays :
      (a : List ℕ) (history : List O) (m : List (List ℕ × List O))
      → Memᴰ a (keys_of m)
      → Memᴰ a (keys_of (group_by_key input history m))
  unfolding group_by_key
  group_by_key-stays a [] m is = is
  group_by_key-stays a (v ∷ history) m is =
      group_by_key-stays a history (add_operation input v m) (elim (add_operation-Keys v m) [
        | had _ e ↦ subst (Memᴰ a) (sym e) is
        | new _ e ↦ subst (Memᴰ a) (sym e) (append-Memᴰ a (keys_of m) _ is)
      ])

  add_operation-Memᴰ :
      (v : O) (m : List (List ℕ × List O)) → Memᴰ (input v).key (keys_of (add_operation input v m))
  add_operation-Memᴰ v m = elim (add_operation-Keys v m) [
    | had is e ↦ subst (Memᴰ (input v).key) (sym e) is
    | new _ e ↦ subst (Memᴰ (input v).key) (sym e) (last (keys_of m))
  ]
    where
      last : (xs : List (List ℕ)) → Memᴰ (input v).key (xs ++ (input v).key ∷ [])
      last [] = Memᴰ.head refl
      last (x ∷ xs) = Memᴰ.tail (last xs)

  pub group_by_key-covers :
      (history : List O) (m : List (List ℕ × List O))
      → All (λ v. Memᴰ (input v).key (keys_of (group_by_key input history m))) history
  unfolding group_by_key
  group_by_key-covers [] m = tt
  group_by_key-covers (v ∷ history) m = (
    group_by_key-stays (input v).key history (add_operation input v m) (add_operation-Memᴰ v m),
    group_by_key-covers history (add_operation input v m),
  )
