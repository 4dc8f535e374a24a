-- ===== src/MapReduce/Indexer/Words.antt =====
-- The words that src/mrapps/indexer.go keeps of a document.
use model_lib.MapReduce.{KeyValue}
use model_lib.MapReduce.Indexer.{has, word_set, with_document}
use model_lib.MapReduce.Sorted.{values_for}
use model_lib.Prelude.{
  ℕ, ◌≡◌, refl, sym, ap, subst, ◌∙◌, inl, inr, true, false, List, [], ◌∷◌, ◌++◌, arith,
  if◌then◌else◌, if_true, Bool-cases,
}
use model_lib.Prelude.Strings.{same_bytes, same_bytes→≡}
use mathlib.Core.List.{Permᴰ}

-- A word is kept, and no word twice.
has-word_set : (key : List ℕ) (words : List (List ℕ)) → has key (word_set words) ≡ has key words
has-word_set key [] = refl
has-word_set key (w ∷ words) = elim (Bool-cases (has w (word_set words))) [
  | inl known ↦ elim (Bool-cases (same_bytes w key)) [
    | inl same ↦
        let key≡ = same_bytes→≡ w key same in
        rw (known, same) (subst (λ k. has k (word_set words) ≡ true) key≡ known)
    | inr other ↦ rw (known, other) (has-word_set key words)
  ]
  | inr new ↦ rw (new, has-word_set key words)
]

values_for-without :
    (key document : List ℕ) (words : List (List ℕ))
    → has key words ≡ false
    → values_for key (with_document document words) ≡ []
values_for-without key document [] h = refl
values_for-without key document (w ∷ words) h =
    ground (arith, values_for-without key document words)

pub values_for-word_set :
    (key document : List ℕ) (words : List (List ℕ))
    → values_for key (with_document document (word_set words))
      ≡ (if has key words then document ∷ [] else [])
values_for-word_set key document [] = refl
values_for-word_set key document (w ∷ words) = elim (Bool-cases (has w (word_set words))) [
  | inl known ↦ elim (Bool-cases (same_bytes w key)) [
    | inl same ↦
        let there : has key words ≡ true =
          subst (λ k. has k words ≡ true) (same_bytes→≡ w key same)
            (sym (has-word_set w words) ∙ known) in
        rw (known, same) (values_for-word_set key document words ∙ if_true _ _ there)
    | inr other ↦ rw (known, other) (values_for-word_set key document words)
  ]
  | inr new ↦ elim (Bool-cases (same_bytes w key)) [
    | inl same ↦
        let absent : has key (word_set words) ≡ false =
          subst (λ k. has k (word_set words) ≡ false) (same_bytes→≡ w key same) new in
        rw (new, same) (ap (◌∷◌ document) (values_for-without key document (word_set words) absent))
    | inr other ↦ rw (new, other) (values_for-word_set key document words)
  ]
]

pub values_for-append :
    (key : List ℕ) (xs ys : List KeyValue)
    → values_for key (xs ++ ys) ≡ values_for key xs ++ values_for key ys
values_for-append key [] ys = refl
values_for-append key (x ∷ xs) ys = elim (Bool-cases (same_bytes x.key key)) [
  | inl same ↦ rw same (ap (◌∷◌ x.value) (values_for-append key xs ys))
  | inr other ↦ rw other (values_for-append key xs ys)
]

pub with_document-perm :
    (document : List ℕ) {xs ys : List (List ℕ)}
    → Permᴰ xs ys
    → Permᴰ (with_document document xs) (with_document document ys)
with_document-perm document Permᴰ.nil = Permᴰ.nil
with_document-perm document (Permᴰ.cons e p) =
    Permᴰ.cons (ap (λ w. record { key = w; value = document }) e) (with_document-perm document p)
with_document-perm document (Permᴰ.swap e f) =
    Permᴰ.swap (ap (λ w. record { key = w; value = document }) e)
      (ap (λ w. record { key = w; value = document }) f)
with_document-perm document (Permᴰ.trans p q) =
    Permᴰ.trans (with_document-perm document p) (with_document-perm document q)
