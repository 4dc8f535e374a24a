-- ===== src/MapReduce/Text.antt =====
-- What the applications under src/mrapps use of Go's packages strings and strconv. The contents of a file are
-- ASCII, a rune for each byte.
use model_lib.Prelude.{
  ℕ, zero, suc, ◌+◌, ◌-◌, ◌*◌, ◌/◌, ◌%◌, ◌<◌, ◌≡◌, refl, ◌∙◌, inl, inr, Bool, List, [], ◌∷◌, ◌++◌,
  arith, ltb, if◌then◌else◌, Bool-cases,
}

-- strings.FieldsFunc: the words between the separators; `word` is the one that is being read.
abbrev pub flush : List ℕ → List (List ℕ) → List (List ℕ)
flush [] words = words
flush (c ∷ word) words = (c ∷ word) ∷ words

unfoldable pub fields_func : (ℕ → Bool) → List ℕ → List ℕ → List (List ℕ)
fields_func separates word [] = flush word []
fields_func separates word (c ∷ contents) =
    let ended = flush word (fields_func separates [] contents) in
    let longer = fields_func separates (word ++ c ∷ []) contents in
    if separates c then ended else longer

-- strconv.Itoa of a length: the decimal digits, `fuel` of them at most.
unfoldable pub digits : ℕ → ℕ → List ℕ
digits zero n = []
digits (suc fuel) n =
    let front = digits fuel (n / 10) in
    if ltb n 10 then (b'0' + n) ∷ [] else front ++ (b'0' + n % 10) ∷ []

abbrev pub itoa : ℕ → List ℕ
itoa n = digits (suc n) n

-- The number that a text of decimal digits stands for, behind the digits read so far.
abbrev pub decimal : ℕ → List ℕ → ℕ
decimal n [] = n
decimal n (c ∷ cs) = decimal (n * 10 + (c - b'0')) cs

decimal-append : (n c : ℕ) (cs : List ℕ) → decimal n (cs ++ c ∷ []) ≡ decimal n cs * 10 + (c - b'0')
decimal-append n c [] = refl
decimal-append n c (d ∷ cs) = decimal-append (n * 10 + (d - b'0')) c cs

digits-decimal : (fuel n : ℕ) → n < fuel → decimal 0 (digits fuel n) ≡ n
unfolding digits
digits-decimal zero n h = absurd (omega arith)
digits-decimal (suc fuel) n h = elim (Bool-cases (ltb n 10)) [
  | inl small ↦ rw small (omega arith)
  | inr large ↦ rw large (
      decimal-append 0 (b'0' + n % 10) (digits fuel (n / 10))
      ∙ omega (arith, digits-decimal fuel (n / 10) (ground arith)))
]

-- The fuel is enough.
pub itoa-decimal : (n : ℕ) → decimal 0 (itoa n) ≡ n
itoa-decimal n = digits-decimal (suc n) n (omega arith)

-- strings.Join(texts, ",")
abbrev pub join_rest : List (List ℕ) → List ℕ
join_rest [] = []
join_rest (t ∷ texts) = b',' ∷ t ++ join_rest texts

abbrev pub join : List (List ℕ) → List ℕ
join [] = []
join (t ∷ texts) = t ++ join_rest texts
