-- ===== src/KvRaft/Examples.antt =====
-- A clerk of three servers, of which server 2 leads from the first attempt on.
use model_lib.KvRaft.{
  err_ok, err_wrong_leader, PutAppendArgs, PutAppendReply, GetArgs, GetReply, Clerk, make_clerk,
  get_verdict, get_args, get_key,
}
use model_lib.KvRaft.Retries.{get_key-first, get_key-returns}
use model_lib.Prelude.{
  ℕ, ◌+◌, ◌%◌, ◌<◌, ◌≡◌, refl, sym, subst, ◌⊎◌, inl, inr, Option, none, some, List, [], ◌∷◌, arith,
  ◌==◌, if◌then◌else◌,
}
use model_lib.Prelude.Go.{ok}
use model_lib.Prelude.Int.{pos, inc}

abbrev clerk : Clerk
clerk = make_clerk 3 (pos 77)

abbrev led_get : ℕ → ℕ → GetArgs → Option GetReply
led_get i server args =
    if server == 2
    then some (record { err = err_ok; value = 5 ∷ [] })
    else some (record { err = err_wrong_leader; value = [] })

abbrev led_put_append : ℕ → ℕ → PutAppendArgs → Option PutAppendReply
led_put_append i server args = if server == 2 then some (record { err = err_ok }) else none

get_key-first_example :
    get_key led_get 5 (1 ∷ []) clerk
    ≡ some (ok (record clerk { seq = inc (pos 0); leader_id = 2 }, 5 ∷ []))
unfolding make_clerk
get_key-first_example =
    get_key-first led_get 5 2 (1 ∷ []) (5 ∷ []) clerk (omega arith) (omega arith) silent refl
  where
    silent :
        (j : ℕ) → j < 2 → get_verdict (led_get j ((0 + j) % 3) (get_args (1 ∷ []) clerk)) ≡ none
    silent j lt =
        let split : (j ≡ 0) ⊎ (j ≡ 1) = omega arith in
        elim split [
          | inl e ↦
              subst
                (λ (n : ℕ). get_verdict (led_get n ((0 + n) % 3) (get_args (1 ∷ []) clerk)) ≡ none)
                (sym e) refl
          | inr e ↦
              subst
                (λ (n : ℕ). get_verdict (led_get n ((0 + n) % 3) (get_args (1 ∷ []) clerk)) ≡ none)
                (sym e) refl
        ]

get_key-returns_example :
    (ck' : Clerk) × (value : List ℕ) × (get_key led_get 3 (1 ∷ []) clerk ≡ some (ok (ck', value)))
unfolding make_clerk
get_key-returns_example =
    get_key-returns led_get 0 2 (1 ∷ []) clerk (omega arith) (omega arith) (λ i le. (5 ∷ [], refl))
