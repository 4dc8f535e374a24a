-- ===== src/Labrpc/Split.antt =====
-- The split of a method's name at its last dot: the start of Server.dispatch of src/labrpc/labrpc.go.
use model_lib.Labrpc.{split_last_dot}
use model_lib.Prelude.{ℕ, ◌≡◌, refl, false, none, some, List, [], ◌∷◌, ◌++◌, ◌==◌, All}

abbrev pub NoDot : List ℕ → Type 0
NoDot = All (λ c. (c == b'.') ≡ false)

split-NoDot : (text : List ℕ) → NoDot text → split_last_dot text ≡ none
unfolding split_last_dot
split-NoDot [] h = refl
split-NoDot (c ∷ text) (first, h) = rw (split-NoDot text h, first)

-- A service and a method whose name has no dot, joined by a dot, are split into the two again, even
-- if the service's name has dots.
pub split_last_dot-join :
    (service method : List ℕ)
    → NoDot method
    → split_last_dot (service ++ b'.' ∷ method) ≡ some (service, method)
unfolding split_last_dot
split_last_dot-join [] method h = rw (split-NoDot method h)
split_last_dot-join (c ∷ service) method h = rw (split_last_dot-join service method h)
