-- ===== src/MapReduce/WordCount.antt =====
-- The application src/mrapps/wc.go. The contents of a file are ASCII, a rune for each byte, and `is_letter` is
-- unicode.IsLetter.
use model_lib.MapReduce.{KeyValue, done, Contents, unopened, unread, holds, map_files, sequential}
use model_lib.MapReduce.Grouping.{KeysAscend, line_of, output_for}
use model_lib.MapReduce.Sequential.{SortLaws, AllRead, map_files-Reduced}
use model_lib.MapReduce.Sorted.{values_for}
use model_lib.MapReduce.Text.{fields_func, itoa}
use model_lib.Prelude.{
  ℕ, suc, ◌≡◌, refl, sym, ap, ◌∙◌, Bool, false, not, Option, none, some, List, [], ◌∷◌, ◌++◌, arith,
  ◌==◌, if◌then◌else◌, if_false, length,
}
use model_lib.Prelude.Strings.{same_bytes}
use mathlib.Core.List.{Permᴰ}

abbrev pub words_of : (ℕ → Bool) → List ℕ → List (List ℕ)
words_of is_letter contents = fields_func (λ r. not (is_letter r)) [] contents

-- Map: the pair of each word and "1".
abbrev pub with_one : List (List ℕ) → List KeyValue
with_one [] = []
with_one (w ∷ words) = record { key = w; value = b'1' ∷ [] } ∷ with_one words

unfoldable pub wc_map : (ℕ → Bool) → List ℕ → List ℕ → List KeyValue
wc_map is_letter filename contents = with_one (words_of is_letter contents)

-- Reduce
unfoldable pub wc_reduce : List ℕ → List (List ℕ) → List ℕ
wc_reduce key values = itoa (length values)

-- How often the word is among the words.
abbrev pub occurrences : List ℕ → List (List ℕ) → ℕ
occurrences key [] = 0
occurrences key (w ∷ words) =
    let more = occurrences key words in if same_bytes w key then suc more else more

-- The words of the files that can be read.
abbrev pub words_in : (ℕ → Bool) → Contents → List (List ℕ)
words_in is_letter unopened = []
words_in is_letter unread = []
words_in is_letter (holds contents) = words_of is_letter contents

abbrev pub all_words : (ℕ → Bool) → (List ℕ → Contents) → List (List ℕ) → List (List ℕ)
all_words is_letter read [] = []
all_words is_letter read (name ∷ names) =
    words_in is_letter (read name) ++ all_words is_letter read names

with_one-append : (xs ys : List (List ℕ)) → with_one (xs ++ ys) ≡ with_one xs ++ with_one ys
with_one-append [] ys = refl
with_one-append (x ∷ xs) ys =
    ap (λ kvs. record { key = x; value = b'1' ∷ [] } ∷ kvs) (with_one-append xs ys)

length-values_for :
    (key : List ℕ) (words : List (List ℕ))
    → length (values_for key (with_one words)) ≡ occurrences key words
length-values_for key [] = refl
length-values_for key (w ∷ words) = ground (arith, length-values_for key words)

pub Permᴰ-length {ℓ} : {A : Type ℓ} {xs ys : List A} → Permᴰ xs ys → length xs ≡ length ys
Permᴰ-length Permᴰ.nil = refl
Permᴰ-length (Permᴰ.cons e p) = ap suc (Permᴰ-length p)
Permᴰ-length (Permᴰ.swap e f) = refl
Permᴰ-length (Permᴰ.trans p q) = Permᴰ-length p ∙ Permᴰ-length q

-- The line of a word, from the number of its occurrences.
abbrev pub count_line : ℕ → Option (List ℕ)
count_line n = if n == 0 then none else some (itoa n)

module _ (is_letter : ℕ → Bool) (read : List ℕ → Contents) where
  map_files-words :
      (names : List (List ℕ))
      → AllRead read names
      → map_files (wc_map is_letter) read names ≡ done (with_one (all_words is_letter read names))
  unfolding map_files wc_map
  map_files-words [] all = refl
  map_files-words (name ∷ names) ((contents, e), all) =
      rw (e, map_files-words names all)
        (ap done
          (sym (with_one-append (words_of is_letter contents) (all_words is_letter read names))))

  line-count :
      (key : List ℕ) (values : List (List ℕ)) (n : ℕ)
      → length values ≡ n
      → output_for wc_reduce key values ≡ count_line n
  unfolding wc_reduce
  line-count key [] n e = ground arith
  line-count key (v ∷ values) n e =
      let some_left : (n == 0) ≡ false = ground arith in
      ap (λ m. some (itoa m)) e ∙ sym (if_false _ _ some_left)

  -- Word count on at least one file, all of which can be read, with a sort that gives the pairs that
  -- it was given ordered by key: the run ends, the keys of its lines ascend, and there is a line for
  -- a word exactly where it is among the words of the files, with the number of its occurrences in
  -- them.
  pub wc-counts :
      (sort : List KeyValue → List KeyValue) (laws : SortLaws sort) (name : List ℕ)
      (names : List (List ℕ))
      → AllRead read (name ∷ names)
      → (lines : List (List ℕ × List ℕ)) × (sequential
            (wc_map is_letter)
            wc_reduce
            read
            sort
            (name ∷ names)
          ≡ done (some lines))
        × KeysAscend lines
        × ((key : List ℕ)
            → line_of key lines
              ≡ count_line (occurrences key (all_words is_letter read (name ∷ names))))
  wc-counts sort laws name names all =
      let words = all_words is_letter read (name ∷ names) in
      let (lines, run, reduced) =
        map_files-Reduced (wc_map is_letter) wc_reduce read sort laws name names (with_one words)
          (map_files-words (name ∷ names) all) in
      (
        lines,
        run,
        reduced.ascend,
        λ key.
            let (values, perm, line) = reduced.each key in
            line
            ∙ line-count key values (occurrences key words)
                (Permᴰ-length perm ∙ length-values_for key words),
      )
