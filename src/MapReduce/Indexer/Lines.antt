-- ===== src/MapReduce/Indexer/Lines.antt =====
-- The lines that src/mrapps/indexer.go gives for the words of all files.
use model_lib.MapReduce.{KeyValue, done, Contents, map_files, sequential}
use model_lib.MapReduce.Grouping.{KeysAscend, line_of, output_for}
use model_lib.MapReduce.Indexer.{
  has, word_set, with_document, indexer_map, indexer_reduce, documents, Ranges,
}
use model_lib.MapReduce.Indexer.Words.{values_for-word_set, values_for-append, with_document-perm}
use model_lib.MapReduce.Sequential.{SortLaws, values_for-perm, AllRead, map_files-Reduced}
use model_lib.MapReduce.Sorted.{values_for}
use model_lib.MapReduce.Text.{itoa, join}
use model_lib.MapReduce.WordCount.{words_in, Permᴰ-length}
use model_lib.Prelude.{
  ℕ, ◌≡◌, refl, ap, subst, ◌∙◌, inl, inr, Bool, Option, none, some, List, [], ◌∷◌, ◌++◌, arith,
  if◌then◌else◌, Bool-cases, length,
}
use model_lib.Prelude.Strings.{sort_strings, sort_strings-perm}
use mathlib.Core.List.{Permᴰ}
use mathlib.Core.List.Permᴰ

-- The line of a word, from the files that have it.
abbrev pub index_line : List (List ℕ) → Option (List ℕ)
index_line [] = none
index_line (d ∷ ds) =
    let sorted = sort_strings (d ∷ ds) in some (itoa (length sorted) ++ b' ' ∷ join sorted)

module _ (is_letter : ℕ → Bool) (read : List ℕ → Contents)
    (range : List (List ℕ) → List (List ℕ)) where
  -- The pairs of the files that can be read.
  abbrev pairs_of : List (List ℕ) → List KeyValue
  pairs_of [] = []
  pairs_of (name ∷ names) =
      with_document name (range (word_set (words_in is_letter (read name)))) ++ pairs_of names

  map_files-pairs_of :
      (names : List (List ℕ))
      → AllRead read names
      → map_files (indexer_map is_letter range) read names ≡ done (pairs_of names)
  unfolding map_files indexer_map
  map_files-pairs_of [] all = refl
  map_files-pairs_of (name ∷ names) ((contents, e), all) = rw (e, map_files-pairs_of names all)

  values_for-file :
      Ranges range
      → (key name : List ℕ) (words : List (List ℕ))
      → Permᴰ
          (values_for key (with_document name (range (word_set words))))
          (if has key words then name ∷ [] else [])
  values_for-file ranges key name words =
      subst (Permᴰ _) (values_for-word_set key name words)
        (values_for-perm key (with_document-perm name (ranges (word_set words))))

  values_for-pairs_of :
      Ranges range
      → (key : List ℕ) (names : List (List ℕ))
      → Permᴰ (values_for key (pairs_of names)) (documents is_letter read key names)
  values_for-pairs_of ranges key [] = Permᴰ.nil
  values_for-pairs_of ranges key (name ∷ names) =
      let words = words_in is_letter (read name) in
      let file = values_for-file ranges key name words in
      let rest = values_for-pairs_of ranges key names in
      rw (values_for-append key (with_document name (range (word_set words))) (pairs_of names)) (
        Permᴰ.trans (Permᴰ.append_right _ file) (
          Permᴰ.trans (Permᴰ.append_left _ rest) (elim (Bool-cases (has key words)) [
            | inl here ↦ rw here (Permᴰ.refl _)
            | inr there ↦ rw there (Permᴰ.refl _)
          ])))

  output-index_line :
      (key : List ℕ) (values ds : List (List ℕ))
      → Permᴰ values ds
      → output_for indexer_reduce key values ≡ index_line ds
  unfolding indexer_reduce
  output-index_line key [] [] p = refl
  output-index_line key [] (d ∷ ds) p = absurd (omega (arith, Permᴰ-length p))
  output-index_line key (v ∷ values) [] p = absurd (omega (arith, Permᴰ-length p))
  output-index_line key (v ∷ values) (d ∷ ds) p =
      ap (λ l. some (itoa (length l) ++ b' ' ∷ join l)) (sort_strings-perm p)

  -- The indexer on at least one file, all of which can be read, with a sort that gives the pairs that
  -- it was given ordered by key, and whatever the order in which its maps are gone through: the run
  -- ends, the keys of its lines ascend, and there is a line for a word exactly where it is among the
  -- words of a file, with the number of these files and their names in order, joined by commas.
  pub indexer-documents :
      (sort : List KeyValue → List KeyValue) (laws : SortLaws sort) (name : List ℕ)
      (names : List (List ℕ))
      → Ranges range
      → AllRead read (name ∷ names)
      → (lines : List (List ℕ × List ℕ)) × (sequential
            (indexer_map is_letter range)
            indexer_reduce
            read
            sort
            (name ∷ names)
          ≡ done (some lines))
        × KeysAscend lines
        × ((key : List ℕ)
            → line_of key lines ≡ index_line (documents is_letter read key (name ∷ names)))
  indexer-documents sort laws name names ranges all =
      let (lines, run, reduced) =
        map_files-Reduced (indexer_map is_letter range) indexer_reduce read sort laws name names
          (pairs_of (name ∷ names)) (map_files-pairs_of (name ∷ names) all) in
      (
        lines,
        run,
        reduced.ascend,
        λ key.
            let (values, perm, line) = reduced.each key in
            line
            ∙ output-index_line key values (documents is_letter read key (name ∷ names))
                (Permᴰ.trans perm (values_for-pairs_of ranges key (name ∷ names))),
      )
