-- ===== src/MapReduce/Indexer.antt =====
-- The application src/mrapps/indexer.go. `is_letter` is unicode.IsLetter, and `range` the order, different
-- each time, in which a loop goes through a map's keys.
pub mod Words
pub mod Lines
use model_lib.MapReduce.{KeyValue, Contents}
use model_lib.MapReduce.Text.{itoa, join}
use model_lib.MapReduce.WordCount.{words_of, words_in}
use model_lib.Prelude.{ℕ, Bool, false, ◌||◌, List, [], ◌∷◌, ◌++◌, if◌then◌else◌, length}
use model_lib.Prelude.Strings.{same_bytes, sort_strings}
use mathlib.Core.List.{Permᴰ}

abbrev pub has : List ℕ → List (List ℕ) → Bool
has key [] = false
has key (w ∷ words) = same_bytes w key || has key words

-- The keys of the map `m` after `m[w] = true` for each word.
abbrev pub word_set : List (List ℕ) → List (List ℕ)
word_set [] = []
word_set (w ∷ words) = let rest = word_set words in if has w rest then rest else w ∷ rest

-- The pair of each word and the document.
abbrev pub with_document : List ℕ → List (List ℕ) → List KeyValue
with_document document [] = []
with_document document (w ∷ words) =
    record { key = w; value = document } ∷ with_document document words

-- Map
unfoldable pub indexer_map :
    (ℕ → Bool) → (List (List ℕ) → List (List ℕ)) → List ℕ → List ℕ → List KeyValue
indexer_map is_letter range document contents =
    with_document document (range (word_set (words_of is_letter contents)))

-- Reduce: the number of the documents and their names.
unfoldable pub indexer_reduce : List ℕ → List (List ℕ) → List ℕ
indexer_reduce key values =
    let sorted = sort_strings values in itoa (length sorted) ++ b' ' ∷ join sorted

-- The files whose words include the key.
abbrev pub documents : (ℕ → Bool) → (List ℕ → Contents) → List ℕ → List (List ℕ) → List (List ℕ)
documents is_letter read key [] = []
documents is_letter read key (name ∷ names) =
    let rest = documents is_letter read key names in
    if has key (words_in is_letter (read name)) then name ∷ rest else rest

-- A run goes through all keys of the map, in some order.
abbrev pub Ranges : (List (List ℕ) → List (List ℕ)) → Type 0
Ranges range = (words : List (List ℕ)) → Permᴰ (range words) words
