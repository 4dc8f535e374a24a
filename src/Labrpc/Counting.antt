-- ===== src/Labrpc/Counting.antt =====
-- The counter of all requests of src/labrpc/labrpc.go, an int32.
use model_lib.Labrpc.Network.{Network, make_network, count_request, get_total_count}
use model_lib.Prelude.{
  ℕ, zero, suc, ◌%◌, ◌^◌, ◌≤◌, ◌<◌, ◌≡◌, refl, ◌⊎◌, inl, inr, arith, ltb, ltb→lt, Bool-cases,
}
use model_lib.Prelude.Int.{pos, ◌<ℤ◌}

module _ (S : Type 0) where
  -- A new network after `n` requests.
  abbrev pub requests : ℕ → Network S
  requests zero = make_network
  requests (suc n) = count_request (requests n)

  requests-count : (n : ℕ) → (requests n).count ≡ n % 2 ^ 32
  unfolding count_request make_network
  requests-count zero = refl
  requests-count (suc n) = omega (arith, requests-count n)

  -- The total count of a new network is the number of its requests below 2^31 of them, and from
  -- there to 2^32 it is negative.
  pub total_count-bounds :
      (n : ℕ)
      → n < 2 ^ 32
      → ((n < 2 ^ 31) × (get_total_count (requests n) ≡ pos n))
        ⊎ ((2 ^ 31 ≤ n) × (get_total_count (requests n) <ℤ pos 0))
  unfolding get_total_count
  total_count-bounds n h =
      let count = requests-count n in
      elim (Bool-cases (ltb n (2 ^ 31))) [
        | inl few ↦ inl (ltb→lt _ _ few, ground (arith, count))
        | inr many ↦ inr (ground arith, ground (arith, count))
      ]
