-- ===== src/MapReduce/Examples.antt =====
-- Runs over two small files, sorted by insertion.
use model_lib.MapReduce.{
  KeyValue, fnv32a, cannot_open, done, exits, Contents, unopened, holds, reduce_groups, map_files,
  sequential,
}
use model_lib.MapReduce.Grouping.{KeysAscend, line_of, Grouped, reduce_groups-Grouped}
use model_lib.MapReduce.Indexer.{indexer_map, indexer_reduce, documents}
use model_lib.MapReduce.Indexer.Lines.{index_line, indexer-documents}
use model_lib.MapReduce.Sequential.{
  SortLaws, AllRead, Reduced, emitted, sequential-Reduced, sequential-exits,
}
use model_lib.MapReduce.Sorted.{KeyLe, IsSorted}
use model_lib.MapReduce.Text.{fields_func, digits}
use model_lib.MapReduce.WordCount.{wc_map, wc_reduce, occurrences, all_words, count_line, wc-counts}
use model_lib.Prelude.{
  ℕ, ◌≡◌, refl, inl, Bool, ◌&&◌, some, List, [], ◌∷◌, arith, ltb, if◌then◌else◌, if_cases, All,
  All-mono,
}
use model_lib.Prelude.Strings.{same_bytes, bytes_le, sort_strings, bytes_le_total, bytes_le_trans}
use mathlib.Core.List.{Permᴰ}
use mathlib.Core.List.Permᴰ

abbrev insert_pair : KeyValue → List KeyValue → List KeyValue
insert_pair a [] = a ∷ []
insert_pair a (x ∷ xs) =
    let rest = insert_pair a xs in if bytes_le a.key x.key then a ∷ x ∷ xs else x ∷ rest

abbrev sort_pairs : List KeyValue → List KeyValue
sort_pairs [] = []
sort_pairs (x ∷ xs) = insert_pair x (sort_pairs xs)

insert_pair-perm : (a : KeyValue) (xs : List KeyValue) → Permᴰ (insert_pair a xs) (a ∷ xs)
insert_pair-perm a [] = Permᴰ.refl _
insert_pair-perm a (x ∷ xs) =
    if_cases (λ l. Permᴰ l (a ∷ x ∷ xs)) (bytes_le a.key x.key) _ _ (λ _. Permᴰ.refl _)
      (λ _. Permᴰ.trans (Permᴰ.cons refl (insert_pair-perm a xs)) (Permᴰ.swap refl refl))

sort_pairs-perm : (xs : List KeyValue) → Permᴰ (sort_pairs xs) xs
sort_pairs-perm [] = Permᴰ.nil
sort_pairs-perm (x ∷ xs) =
    Permᴰ.trans (insert_pair-perm x (sort_pairs xs)) (Permᴰ.cons refl (sort_pairs-perm xs))

insert_pair-All {κ} :
    (P : KeyValue → Type κ) (a : KeyValue) (xs : List KeyValue)
    → P a
    → All P xs
    → All P (insert_pair a xs)
insert_pair-All P a [] p h = (p, tt)
insert_pair-All P a (x ∷ xs) p h =
    if_cases (All P) (bytes_le a.key x.key) _ _ (λ _. (p, h))
      (λ _. (h.0, insert_pair-All P a xs p h.1))

insert_pair-IsSorted :
    (a : KeyValue) (xs : List KeyValue) → IsSorted xs → IsSorted (insert_pair a xs)
insert_pair-IsSorted a [] h = (tt, tt)
insert_pair-IsSorted a (x ∷ xs) h =
    if_cases IsSorted (bytes_le a.key x.key) _ _
      (λ le.
        ((le, All-mono (KeyLe x) (KeyLe a) xs (λ y. bytes_le_trans a.key x.key y.key le) h.0), h))
      (λ gt. (
        insert_pair-All (KeyLe x) a xs (bytes_le_total a.key x.key gt) h.0,
        insert_pair-IsSorted a xs h.1,
      ))

sort_pairs-IsSorted : (xs : List KeyValue) → IsSorted (sort_pairs xs)
sort_pairs-IsSorted [] = tt
sort_pairs-IsSorted (x ∷ xs) = insert_pair-IsSorted x (sort_pairs xs) (sort_pairs-IsSorted xs)

sort_pairs-SortLaws : SortLaws sort_pairs
sort_pairs-SortLaws = record { perm = sort_pairs-perm; sorted = sort_pairs-IsSorted }

-- File 1 is "b a b" and file 2 is "a"; there are no others.
abbrev two_files : List ℕ → Contents
two_files name =
    if same_bytes name (b'1' ∷ [])
    then holds (b'b' ∷ b' ' ∷ b'a' ∷ b' ' ∷ b'b' ∷ [])
    else if same_bytes name (b'2' ∷ [])
    then holds (b'a' ∷ [])
    else unopened

abbrev lower_case : ℕ → Bool
lower_case c = ltb b'`' c && ltb c b'{'

abbrev file_names : List (List ℕ)
file_names = (b'2' ∷ []) ∷ []

both_read : AllRead two_files ((b'1' ∷ []) ∷ file_names)
both_read = ((_, refl), ((_, refl), tt))

-- Word count of the two files.
two_files-counts :
    sequential (wc_map lower_case) wc_reduce two_files sort_pairs ((b'1' ∷ []) ∷ file_names)
    ≡ done (some ((b'a' ∷ [], b'2' ∷ []) ∷ (b'b' ∷ [], b'2' ∷ []) ∷ []))
unfolding sequential map_files wc_map fields_func reduce_groups wc_reduce digits
two_files-counts = refl

-- Their index.
two_files-index :
    sequential
      (indexer_map lower_case (λ ws. ws))
      indexer_reduce
      two_files
      sort_pairs
      ((b'1' ∷ []) ∷ file_names)
    ≡ done (
        some (
          (b'a' ∷ [], b'2' ∷ b' ' ∷ b'1' ∷ b',' ∷ b'2' ∷ [])
          ∷ (b'b' ∷ [], b'1' ∷ b' ' ∷ b'1' ∷ [])
          ∷ []))
unfolding sequential map_files indexer_map fields_func reduce_groups indexer_reduce sort_strings
    digits
two_files-index = refl

-- FNV-1a of the empty text and of "a", as published.
fnv32a_tests : (fnv32a 2166136261 [] ≡ 0x811c9dc5) × (fnv32a 2166136261 (b'a' ∷ []) ≡ 0xe40c292c)
unfolding fnv32a
fnv32a_tests = (refl, refl)

abbrev two_pairs : List KeyValue
two_pairs =
    record { key = b'b' ∷ []; value = b'1' ∷ [] }
    ∷ record { key = b'a' ∷ []; value = b'1' ∷ [] }
    ∷ record { key = b'b' ∷ []; value = b'1' ∷ [] }
    ∷ record { key = b'a' ∷ []; value = b'1' ∷ [] }
    ∷ []

two_files-pairs :
    map_files (wc_map lower_case) two_files ((b'1' ∷ []) ∷ file_names) ≡ done two_pairs
unfolding map_files wc_map fields_func
two_files-pairs = refl

sequential-Reduced_example :
    (lines : List (List ℕ × List ℕ)) × (sequential
        (wc_map lower_case)
        wc_reduce
        two_files
        sort_pairs
        ((b'1' ∷ []) ∷ file_names)
      ≡ done (some lines))
    × Reduced
        (wc_map lower_case)
        wc_reduce
        two_files
        sort_pairs
        (emitted (wc_map lower_case) wc_reduce two_files sort_pairs ((b'1' ∷ []) ∷ file_names))
        lines
sequential-Reduced_example =
    sequential-Reduced (wc_map lower_case) wc_reduce two_files sort_pairs sort_pairs-SortLaws
      (b'1' ∷ []) file_names both_read

reduce_groups-Grouped_example :
    (lines : List (List ℕ × List ℕ)) × (reduce_groups wc_reduce 4 (sort_pairs two_pairs)
      ≡ some lines)
    × Grouped wc_reduce (sort_pairs two_pairs) lines
reduce_groups-Grouped_example =
    reduce_groups-Grouped wc_reduce 4 (sort_pairs two_pairs) (omega arith)
      (sort_pairs-IsSorted two_pairs)

sequential-exits_example :
    sequential
      (wc_map lower_case)
      wc_reduce
      two_files
      sort_pairs
      ((b'2' ∷ []) ∷ (b'3' ∷ []) ∷ (b'1' ∷ []) ∷ [])
    ≡ exits (cannot_open (b'3' ∷ []))
sequential-exits_example =
    sequential-exits (wc_map lower_case) wc_reduce two_files sort_pairs file_names
      ((b'1' ∷ []) ∷ []) (b'3' ∷ []) (cannot_open (b'3' ∷ [])) ((_, refl), tt) (inl (refl, refl))

wc-counts_example :
    (lines : List (List ℕ × List ℕ)) × (sequential
        (wc_map lower_case)
        wc_reduce
        two_files
        sort_pairs
        ((b'1' ∷ []) ∷ file_names)
      ≡ done (some lines))
    × KeysAscend lines
    × ((key : List ℕ)
        → line_of key lines
          ≡ count_line
              (occurrences key (all_words lower_case two_files ((b'1' ∷ []) ∷ file_names))))
wc-counts_example =
    wc-counts lower_case two_files sort_pairs sort_pairs-SortLaws (b'1' ∷ []) file_names both_read

indexer-documents_example :
    (lines : List (List ℕ × List ℕ)) × (sequential
        (indexer_map lower_case (λ ws. ws))
        indexer_reduce
        two_files
        sort_pairs
        ((b'1' ∷ []) ∷ file_names)
      ≡ done (some lines))
    × KeysAscend lines
    × ((key : List ℕ)
        → line_of key lines
          ≡ index_line (documents lower_case two_files key ((b'1' ∷ []) ∷ file_names)))
indexer-documents_example =
    indexer-documents lower_case two_files (λ ws. ws) sort_pairs sort_pairs-SortLaws (b'1' ∷ [])
      file_names Permᴰ.refl both_read
