-- ===== src/Raft/Commit/Quorum.antt =====
-- The index that a majority has reached: the sorted match indices in leaderUpdateCommitIndex.
use model_lib.Prelude.{
  ℕ, zero, suc, ◌+◌, ◌-◌, ◌/◌, ◌≤◌, ◌<◌, ◌≡◌, refl, ap, ◌∙◌, inl, inr, some, List, [], ◌∷◌, arith,
  if◌then◌else◌, Bool-cases, length, get_elem?, get_elem?-lt, All, All-mono,
}
use model_lib.Prelude.Go.{ok, or_panic}
use model_lib.Prelude.Int.{ℤ, pos, ◌-ℤ◌, ◌≤ℤ◌, ◌<ℤ◌, leb_ℤ, eq_of_parts, int_laws}
use model_lib.Raft.Commit.{insert_int, sort_ints, majority_index}

-- How many of the integers are at least `m`.
abbrev pub count_from : ℤ → List ℤ → ℕ
count_from m [] = 0
count_from m (x ∷ xs) = let rest = count_from m xs in if leb_ℤ m x then suc rest else rest

abbrev AllFrom : ℤ → List ℤ → Type 0
AllFrom a xs = All (λ x. a ≤ℤ x) xs

abbrev Sorted : List ℤ → Type 0
Sorted [] = Unit {0}
Sorted (x ∷ xs) = AllFrom x xs × Sorted xs

insert-AllFrom : (b a : ℤ) (xs : List ℤ) → b ≤ℤ a → AllFrom b xs → AllFrom b (insert_int a xs)
insert-AllFrom b a [] h k = (h, tt)
insert-AllFrom b a (x ∷ xs) h k = elim (Bool-cases (leb_ℤ a x)) [
  | inl le ↦ rw le (h, k)
  | inr gt ↦ rw gt (k.0, insert-AllFrom b a xs h k.1)
]

AllFrom-mono : (a b : ℤ) (xs : List ℤ) → a ≤ℤ b → AllFrom b xs → AllFrom a xs
AllFrom-mono a b xs h = All-mono (λ x. b ≤ℤ x) (λ x. a ≤ℤ x) xs (λ x k. omega arith)

insert-Sorted : (a : ℤ) (xs : List ℤ) → Sorted xs → Sorted (insert_int a xs)
insert-Sorted a [] s = (tt, tt)
insert-Sorted a (x ∷ xs) s = elim (Bool-cases (leb_ℤ a x)) [
  | inl le ↦ let a≤x : a ≤ℤ x = ground arith in rw le ((a≤x, AllFrom-mono a x xs a≤x s.0), s)
  | inr gt ↦ rw gt (insert-AllFrom x a xs (ground arith) s.0, insert-Sorted a xs s.1)
]

sort-Sorted : (xs : List ℤ) → Sorted (sort_ints xs)
unfolding sort_ints
sort-Sorted [] = tt
sort-Sorted (x ∷ xs) = insert-Sorted x (sort_ints xs) (sort-Sorted xs)

count_from-insert : (m a : ℤ) (xs : List ℤ) → count_from m (insert_int a xs) ≡ count_from m (a ∷ xs)
count_from-insert m a [] = refl
count_from-insert m a (x ∷ xs) = ground (arith, count_from-insert m a xs)

count_from-sort : (m : ℤ) (xs : List ℤ) → count_from m (sort_ints xs) ≡ count_from m xs
unfolding sort_ints
count_from-sort m [] = refl
count_from-sort m (x ∷ xs) =
    count_from-insert m x (sort_ints xs)
    ∙ ap (λ (n : ℕ). if leb_ℤ m x then suc n else n) (count_from-sort m xs)

length-insert : (a : ℤ) (xs : List ℤ) → length (insert_int a xs) ≡ suc (length xs)
length-insert a [] = refl
length-insert a (x ∷ xs) = ground (arith, length-insert a xs)

length-sort : (xs : List ℤ) → length (sort_ints xs) ≡ length xs
unfolding sort_ints
length-sort [] = refl
length-sort (x ∷ xs) = length-insert x (sort_ints xs) ∙ ap suc (length-sort xs)

count_from-le : (m : ℤ) (xs : List ℤ) → count_from m xs ≤ length xs
count_from-le m [] = omega arith
count_from-le m (x ∷ xs) = ground (arith, count_from-le m xs)

count_from_all : (m : ℤ) (xs : List ℤ) → AllFrom m xs → count_from m xs ≡ length xs
count_from_all m [] h = refl
count_from_all m (x ∷ xs) h = ground (arith, count_from_all m xs h.1)

AllFrom-get : (a m : ℤ) (xs : List ℤ) (k : ℕ) → AllFrom a xs → get_elem? xs k ≡ some m → a ≤ℤ m
AllFrom-get a m [] k h e = cc
AllFrom-get a m (x ∷ xs) zero h e = ground arith
AllFrom-get a m (x ∷ xs) (suc k) h e = AllFrom-get a m xs k h.1 e

-- In a sorted list the element at position `k` is reached by all but the first `k`, and what is
-- larger by fewer.
Sorted-position :
    (m : ℤ) (xs : List ℤ) (k : ℕ)
    → Sorted xs
    → get_elem? xs k ≡ some m
    → (length xs ≤ count_from m xs + k) × ((q : ℤ) → m <ℤ q → count_from q xs + suc k ≤ length xs)
Sorted-position m [] k s e = cc
Sorted-position m (x ∷ xs) zero s e =
    (ground (arith, count_from_all x xs s.0), (λ q h. ground (arith, count_from-le q xs)))
Sorted-position m (x ∷ xs) (suc k) s e =
    let (enough, fewer) = Sorted-position m xs k s.1 e in
    let x≤m = AllFrom-get x m xs k s.0 e in (ground arith, (λ q h. ground (arith, fewer q h)))

-- A majority of the peers.
abbrev pub quorum_size : ℕ → ℕ
quorum_size peers = peers / 2 + 1

middle : (peers : ℕ) → 0 < peers → pos ((peers + 1) / 2) -ℤ pos 1 ≡ pos ((peers + 1) / 2 - 1)
middle peers h =
    eq_of_parts (pos ((peers + 1) / 2) -ℤ pos 1) (pos ((peers + 1) / 2 - 1)) (omega int_laws)

-- With one match index for each of at least one peer, the code finds an index that a majority of
-- the peers has reached, and it is the largest such index.
pub majority_index-quorum :
    (match_index : List ℤ)
    → 0 < length match_index
    → (m : ℤ) × (majority_index (length match_index) match_index ≡ ok m)
      × (quorum_size (length match_index) ≤ count_from m match_index)
      × ((q : ℤ) → m <ℤ q → count_from q match_index < quorum_size (length match_index))
unfolding majority_index
majority_index-quorum match_index h =
    let n : ℕ = length match_index in
    let k : ℕ = (n + 1) / 2 - 1 in
    let len = length-sort match_index in
    let (m, at) = get_elem?-lt (sort_ints match_index) k (omega (arith, len)) in
    let (enough, fewer) =
      Sorted-position m (sort_ints match_index) k (sort-Sorted match_index) at in
    (
      m,
      rw (middle n h) (ap or_panic at),
      omega (arith, len, count_from-sort m match_index, enough),
      (λ q more. omega (arith, len, count_from-sort q match_index, fewer q more)),
    )
