-- ===== src/ShardKv/Routing.antt =====
-- Where a request of the sharded service's clerk goes.
use model_lib.Prelude.{
  ℕ, zero, suc, ◌+◌, ◌≤◌, ◌<◌, ◌≡◌, sym, ap, subst, ◌∙◌, ◌⊎◌, inl, inr, Option, none, some, List,
  [], ◌∷◌, ◌++◌, arith, Option-cases, length, get_elem?-lt, All,
}
use model_lib.Prelude.Go.{ok, bind_ok, or_panic, get}
use model_lib.Prelude.Int.{ℤ, pos}
use model_lib.ShardCtrler.{n_shards, Config}
use model_lib.ShardKv.{
  returns, Step, ShardPutArgs, ShardPutReply, ShardGetArgs, ShardGetReply, key2shard, ShardClerk,
  continues, get_step, put_step, lookup_group, try_group, try_config, serve, shard_get,
  shard_put_append,
}
use native.Mathlib.Nat.{mod-lt}

-- Every key has a shard below n_shards.
pub key2shard-lt : (key : List ℕ) → key2shard key < n_shards
unfolding key2shard
key2shard-lt [] = omega arith
key2shard-lt (c ∷ key) = mod-lt c (omega arith)

module _ {R : Type 0} where
  try_group-reaches :
      (answer : List ℕ → Step R) (before after : List (List ℕ)) (name : List ℕ) (r : R)
      → All (λ (other : List ℕ). answer other ≡ continues) before
      → answer name ≡ returns r
      → try_group answer (before ++ name ∷ after) ≡ some r
  unfolding try_group
  try_group-reaches answer [] after name r silent found = rw (found, try_group)
  try_group-reaches answer (other ∷ before) after name r silent found =
      rw (silent.0, try_group) (try_group-reaches answer before after name r silent.1 found)

  -- The configuration has a shard table of the right size, in which the shard belongs to a group, and
  -- a server of that group gives the result when those before it are asked in vain.
  pub record Serves (answer : List ℕ → Step R) (shard : ℕ) (r : R) (config : Config) : Type 0 where
    pub gid : ℤ
    pub before : List (List ℕ)
    pub name : List ℕ
    pub after : List (List ℕ)
    pub owner : get config.shards (pos shard) ≡ ok gid
    pub group : lookup_group gid config.groups ≡ some (before ++ name ∷ after)
    pub silent : All (λ (other : List ℕ). answer other ≡ continues) before
    pub found : answer name ≡ returns r

  try_config-Serves :
      (answer : List ℕ → Step R) (shard : ℕ) (r : R) (config : Config)
      → Serves answer shard r config
      → try_config answer shard config ≡ ok (some r)
  try_config-Serves answer shard r config s =
      bind_ok _ s.owner
      ∙ rw s.group (ap ok (try_group-reaches answer s.before s.after s.name r s.silent s.found))

  -- With a shard table of the right size a round does not panic.
  try_config-total :
      (answer : List ℕ → Step R) (shard : ℕ) (config : Config)
      → shard < length config.shards
      → (o : Option R) × (try_config answer shard config ≡ ok o)
  try_config-total answer shard config inside =
      let (gid, at) = get_elem?-lt config.shards shard inside in
      let owner : get config.shards (pos shard) ≡ ok gid = ap or_panic at in
      elim (Option-cases (lookup_group gid config.groups)) [
        | inl unknown ↦ (none, bind_ok _ owner ∙ rw unknown)
        | inr (servers, known) ↦ (try_group answer servers, bind_ok _ owner ∙ rw known)
      ]

  -- One round.
  serve_step :
      (ask : ℕ → Config) (answer : ℕ → List ℕ → Step R) (shard fuel round : ℕ) (config : Config)
      → shard < length config.shards
      → ((r : R) × (serve ask answer shard (suc fuel) round config ≡ some (ok (config, r))))
        ⊎ ((try_config (answer round) shard config ≡ ok none)
            × (serve ask answer shard (suc fuel) round config
                ≡ serve ask answer shard fuel (suc round) (ask round)))
  unfolding serve
  serve_step ask answer shard fuel round config inside =
      let (o, run) = try_config-total (answer round) shard config inside in
      elim (Option-cases o) [
        | inr (r, some_result) ↦ inl (r, rw (run ∙ ap ok some_result, serve))
        | inl no_result ↦ let failed = run ∙ ap ok no_result in (inr (failed, rw (failed, serve)))
      ]

  -- The round after the controller has named a configuration that serves.
  last_round :
      (ask : ℕ → Config) (answer : ℕ → List ℕ → Step R) (shard t fuel round : ℕ)
      → ((i : ℕ) → shard < length (ask i).shards)
      → ((r : R) × Serves (answer (suc t)) shard r (ask t))
      → round ≡ t
      → 0 < fuel
      → (config' : Config) × (r : R) × (serve ask answer shard fuel (suc round) (ask round)
          ≡ some (ok (config', r)))
  unfolding serve
  last_round ask answer shard t zero round sized served now more = absurd (omega arith)
  last_round ask answer shard t (suc fuel) round sized served now more =
      let (r, s) =
        subst (λ (n : ℕ). (r : R) × Serves (answer (suc n)) shard r (ask n)) (sym now) served in
      (ask round, r, rw (try_config-Serves (answer (suc round)) shard r (ask round) s, serve))

  serve-returns :
      (ask : ℕ → Config) (answer : ℕ → List ℕ → Step R) (shard t fuel round : ℕ) (config : Config)
      → ((i : ℕ) → shard < length (ask i).shards)
      → ((r : R) × Serves (answer (suc t)) shard r (ask t))
      → shard < length config.shards
      → round ≤ t
      → t + 2 ≤ fuel + round
      → (config' : Config) × (r : R) × (serve ask answer shard fuel round config
          ≡ some (ok (config', r)))
  serve-returns ask answer shard t zero round config sized served inside early enough =
      absurd (omega arith)
  serve-returns ask answer shard t (suc fuel) round config sized served inside early enough =
      elim (serve_step ask answer shard fuel round config inside) [
        | inl (r, run) ↦ (config, r, run)
        | inr (_, run) ↦
            let split : (round < t) ⊎ (round ≡ t) = omega arith in
            elim split [
              | inl sooner ↦
                  let (config', r, rest) =
                    serve-returns ask answer shard t fuel (suc round) (ask round) sized served
                      (sized round) (omega arith) (omega arith) in
                  (config', r, run ∙ rest)
              | inr now ↦
                  let (config', r, rest) =
                    last_round ask answer shard t fuel round sized served now (omega arith) in
                  (config', r, run ∙ rest)
            ]
      ]

-- Get on the sharded service returns. The clerk's shard table and those of the controller's
-- configurations have n_shards entries. If the configuration that the controller names after round t
-- gives the key's shard to a group, one of whose servers answers the next round with OK or ErrNoKey
-- while those before it do not send the clerk away, then Get returns a value without a panic within
-- t + 2 rounds.
pub shard_get-returns :
    (ask : ℕ → Config) (call : ℕ → List ℕ → ShardGetArgs → Option ShardGetReply) (t : ℕ)
    (key value : List ℕ) (ck : ShardClerk)
    → length ck.config.shards ≡ n_shards
    → ((i : ℕ) → length (ask i).shards ≡ n_shards)
    → Serves
        (λ name. get_step (call (suc t) name (record { key = key })))
        (key2shard key)
        value
        (ask t)
    → (config : Config) × (value' : List ℕ) × (shard_get ask call (t + 2) key ck
        ≡ some (ok (config, value')))
unfolding shard_get
shard_get-returns ask call t key value ck sized all_sized served =
    let lt = key2shard-lt key in
    serve-returns ask (λ round name. get_step (call round name (record { key = key })))
      (key2shard key) t (t + 2) 0 ck.config (λ i. omega (arith, lt, all_sized i)) (value, served)
      (omega (arith, lt, sized)) (omega arith) (omega arith)

-- Put and Append on the sharded service return, under the same conditions with an answer OK.
pub shard_put_append-returns :
    (ask : ℕ → Config) (call : ℕ → List ℕ → ShardPutArgs → Option ShardPutReply) (t : ℕ)
    (key value op : List ℕ) (ck : ShardClerk)
    → length ck.config.shards ≡ n_shards
    → ((i : ℕ) → length (ask i).shards ≡ n_shards)
    → Serves
        (λ name. put_step (call (suc t) name (record { key = key; value = value; op = op })))
        (key2shard key)
        tt
        (ask t)
    → (config : Config) × (done : Unit {0}) × (shard_put_append ask call (t + 2) key value op ck
        ≡ some (ok (config, done)))
unfolding shard_put_append
shard_put_append-returns ask call t key value op ck sized all_sized served =
    let lt = key2shard-lt key in
    serve-returns ask
      (λ round name. put_step (call round name (record { key = key; value = value; op = op })))
      (key2shard key) t (t + 2) 0 ck.config (λ i. omega (arith, lt, all_sized i)) (tt, served)
      (omega (arith, lt, sized)) (omega arith) (omega arith)
