-- ===== src/Prelude/Strings.antt =====
-- Go strings, as the lists of their bytes: `==`, the order, and sort.Strings.
use Prim.Native.Nat.{ℕ}
use mathlib.Core.Path.{◌≡◌, refl, ap₂, ◌∙◌}
use mathlib.Core.Logic.{◌≢◌}
use mathlib.Core.Bool.{Bool, true, false, ◌&&◌, ◌||◌}
use mathlib.Core.List.{List, [], ◌∷◌, Permᴰ}
use native.Mathlib.Omega.{arith}
use model_lib.Prelude.Tests.{ltb, ◌==◌, if◌then◌else◌}

-- `==` and `<` on Go strings.
abbrev pub same_bytes : List ℕ → List ℕ → Bool
same_bytes [] [] = true
same_bytes [] (y ∷ ys) = false
same_bytes (x ∷ xs) [] = false
same_bytes (x ∷ xs) (y ∷ ys) = x == y && same_bytes xs ys

abbrev pub bytes_le : List ℕ → List ℕ → Bool
bytes_le [] ys = true
bytes_le (x ∷ xs) [] = false
bytes_le (x ∷ xs) (y ∷ ys) = ltb x y || (x == y && bytes_le xs ys)

-- sort.Strings
abbrev pub insert_string : List ℕ → List (List ℕ) → List (List ℕ)
insert_string k [] = k ∷ []
insert_string k (x ∷ xs) =
    let rest = insert_string k xs in if bytes_le k x then k ∷ x ∷ xs else x ∷ rest

unfoldable pub sort_strings : List (List ℕ) → List (List ℕ)
sort_strings [] = []
sort_strings (x ∷ xs) = insert_string x (sort_strings xs)

pub same_bytes→≡ : (xs ys : List ℕ) → same_bytes xs ys ≡ true → xs ≡ ys
same_bytes→≡ [] [] h = refl
same_bytes→≡ [] (y ∷ ys) h = cc
same_bytes→≡ (x ∷ xs) [] h = cc
same_bytes→≡ (x ∷ xs) (y ∷ ys) h =
    let head : x ≡ y = ground arith in
    let tail : same_bytes xs ys ≡ true = ground arith in
    ap₂ (λ a (l : List ℕ). a ∷ l) head (same_bytes→≡ xs ys tail)

pub same_bytes_refl : (xs : List ℕ) → same_bytes xs xs ≡ true
same_bytes_refl [] = refl
same_bytes_refl (x ∷ xs) = ground (arith, same_bytes_refl xs)

-- The order is total, transitive and antisymmetric.
pub bytes_le_refl : (xs : List ℕ) → bytes_le xs xs ≡ true
bytes_le_refl [] = refl
bytes_le_refl (x ∷ xs) = ground (arith, bytes_le_refl xs)

pub bytes_le_total : (xs ys : List ℕ) → bytes_le xs ys ≡ false → bytes_le ys xs ≡ true
bytes_le_total [] ys h = cc
bytes_le_total (x ∷ xs) [] h = refl
bytes_le_total (x ∷ xs) (y ∷ ys) h = ground (arith, bytes_le_total xs ys)

pub bytes_le_trans :
    (xs ys zs : List ℕ) → bytes_le xs ys ≡ true → bytes_le ys zs ≡ true → bytes_le xs zs ≡ true
bytes_le_trans [] ys zs h k = refl
bytes_le_trans (x ∷ xs) [] zs h k = cc
bytes_le_trans (x ∷ xs) (y ∷ ys) [] h k = cc
bytes_le_trans (x ∷ xs) (y ∷ ys) (z ∷ zs) h k = ground (arith, bytes_le_trans xs ys zs)

pub bytes_le_antisymm : (xs ys : List ℕ) → bytes_le xs ys ≡ true → bytes_le ys xs ≡ true → xs ≡ ys
bytes_le_antisymm [] [] h k = refl
bytes_le_antisymm [] (y ∷ ys) h k = cc
bytes_le_antisymm (x ∷ xs) [] h k = cc
bytes_le_antisymm (x ∷ xs) (y ∷ ys) h k =
    let head : x ≡ y = ground arith in
    ap₂ (λ a (l : List ℕ). a ∷ l) head (bytes_le_antisymm xs ys (ground arith) (ground arith))

pub same_bytes_ne : (xs ys : List ℕ) → xs ≢ ys → same_bytes xs ys ≡ false
same_bytes_ne xs ys h = ground (arith, same_bytes→≡ xs ys)

-- The sorted list does not depend on the order of the texts.
insert_string_comm :
    (a b : List ℕ) (l : List (List ℕ))
    → insert_string a (insert_string b l) ≡ insert_string b (insert_string a l)
insert_string_comm a b [] = ground (arith, bytes_le_total a b, bytes_le_antisymm a b)
insert_string_comm a b (x ∷ l) = ground (
  arith,
  bytes_le_total a b,
  bytes_le_antisymm a b,
  bytes_le_trans b a x,
  bytes_le_trans a b x,
  insert_string_comm a b l,
)

pub sort_strings-perm : {xs ys : List (List ℕ)} → Permᴰ xs ys → sort_strings xs ≡ sort_strings ys
unfolding sort_strings
sort_strings-perm Permᴰ.nil = refl
sort_strings-perm (Permᴰ.cons e p) = ap₂ insert_string e (sort_strings-perm p)
sort_strings-perm (Permᴰ.swap {a} {b} {a'} {b'} {l} e f) =
    insert_string_comm a b (sort_strings l)
    ∙ ap₂ (λ p q. insert_string p (insert_string q (sort_strings l))) f e
sort_strings-perm (Permᴰ.trans p q) = sort_strings-perm p ∙ sort_strings-perm q
