-- ===== src/Prelude/Slices.antt =====
-- Reads and slices at a known split of a list never panic.
use Prim.Native.Nat.{ℕ, zero, suc, ◌≤◌}
use mathlib.Core.Path.{◌≡◌, refl, ap}
use mathlib.Core.List.{List, [], ◌∷◌, ◌++◌}
use mathlib.Core.Bool.{true}
use native.Mathlib.Omega.{arith}
use model_lib.Prelude.Tests.{leb}
use model_lib.Prelude.Lists.{
  length, length-append, get_elem?-split, take-split, drop-split, append_cons_assoc,
}
use model_lib.Prelude.Int.{pos, inc}
use model_lib.Prelude.Go.{ok, or_panic, get, slice_to, slice_from}

leb_of_le : {a b : ℕ} → a ≤ b → leb a b ≡ true
leb_of_le h = ground arith

module _ {ℓ} {A : Type ℓ} where
  pub length-snoc : (xs : List A) (a : A) → length (xs ++ a ∷ []) ≡ suc (length xs)
  length-snoc xs a = omega (arith, length-append xs (a ∷ []))

  pub get-split : (xs ys : List A) (a : A) → get (xs ++ a ∷ ys) (pos (length xs)) ≡ ok a
  get-split xs ys a = ap or_panic (get_elem?-split xs ys a)

  pub slice_to-split : (xs ys : List A) → slice_to (xs ++ ys) (pos (length xs)) ≡ ok xs
  slice_to-split xs ys =
      let fits : leb (length xs) (length (xs ++ ys)) ≡ true =
        leb_of_le (omega (arith, length-append xs ys)) in
      rw fits (ap ok (take-split xs ys))

  pub slice_from-split : (xs ys : List A) → slice_from (xs ++ ys) (pos (length xs)) ≡ ok ys
  slice_from-split xs ys =
      let fits : leb (length xs) (length (xs ++ ys)) ≡ true =
        leb_of_le (omega (arith, length-append xs ys)) in
      rw fits (ap ok (drop-split xs ys))

  -- The same one position further.
  pub slice_to-after :
      (xs ys : List A) (a : A) → slice_to (xs ++ a ∷ ys) (inc (pos (length xs))) ≡ ok (xs ++ a ∷ [])
  unfolding inc
  slice_to-after xs ys a =
      rw (← append_cons_assoc xs ys a, ← length-snoc xs a) (slice_to-split (xs ++ a ∷ []) ys)

  pub slice_from-after :
      (xs ys : List A) (a : A) → slice_from (xs ++ a ∷ ys) (inc (pos (length xs))) ≡ ok ys
  unfolding inc
  slice_from-after xs ys a =
      rw (← append_cons_assoc xs ys a, ← length-snoc xs a) (slice_from-split (xs ++ a ∷ []) ys)

  -- A list is cut at any position within its length.
  pub record CutAt (xs : List A) (n : ℕ) : Type ℓ where
    pub front : List A
    pub back : List A
    pub split : xs ≡ front ++ back
    pub at : length front ≡ n

  pub cut_at : (xs : List A) (n : ℕ) → n ≤ length xs → CutAt xs n
  cut_at xs zero h = record { front = []; back = xs; split = refl; at = refl }
  cut_at [] (suc n) h = elim h [ ]
  cut_at (x ∷ xs) (suc n) h =
      let c = cut_at xs n (omega arith) in
      record { front = x ∷ c.front; back = c.back; split = ap (◌∷◌ x) c.split; at = ap suc c.at }
