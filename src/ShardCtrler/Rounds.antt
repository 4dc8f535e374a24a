-- ===== src/ShardCtrler/Rounds.antt =====
-- When the clerk's loops over the servers end, and with what.
use model_lib.Prelude.{
  ℕ, zero, suc, ◌+◌, ◌≤◌, ◌<◌, ◌≡◌, refl, sym, ap, subst, ◌∙◌, ◌⊎◌, inl, inr, false, Option, none,
  some, List, arith, if_false, Bool-cases, Option-cases,
}
use model_lib.Prelude.Int.{ℤ}
use model_lib.ShardCtrler.{
  join, Config, JoinArgs, JoinReply, LeaveArgs, LeaveReply, MoveArgs, MoveReply, QueryArgs,
  QueryReply, CtrlClerk, try_each, rounds, query_verdict, join_verdict, leave_verdict, move_verdict,
  query, leave, move_shard,
}

module _ {R : Type 0} where
  -- An answer is found if a server has one.
  try_each-found :
      (answer : ℕ → Option R) (left server s : ℕ) (r : R)
      → server ≤ s
      → s < server + left
      → answer s ≡ some r
      → (r' : R) × (try_each answer left server ≡ some r')
  unfolding try_each
  try_each-found answer zero server s r lo hi found = absurd (omega arith)
  try_each-found answer (suc left) server s r lo hi found = elim (Option-cases (answer server)) [
    | inr (r', here) ↦ (r', rw (here, try_each))
    | inl silent ↦
        let split : (server ≡ s) ⊎ (server < s) = omega arith in
        elim split [
          | inl same ↦ let found' = subst (λ (x : ℕ). answer x ≡ some r) (sym same) found in cc
          | inr lt ↦
              let (r', later) =
                try_each-found answer left (suc server) s r (omega arith) (omega arith) found in
              (r', rw (silent, try_each) later)
        ]
  ]

  -- What is found is the answer of one of the servers.
  try_each-from :
      (answer : ℕ → Option R) (left server : ℕ) (r : R)
      → try_each answer left server ≡ some r
      → (s : ℕ) × (s < server + left) × (answer s ≡ some r)
  unfolding try_each
  try_each-from answer zero server r run = cc
  try_each-from answer (suc left) server r run = elim (Option-cases (answer server)) [
    | inr (r', here) ↦
        let run' : some r' ≡ some r = rw (here, try_each) at run in
        (server, omega arith, here ∙ run')
    | inl silent ↦
        let run' : try_each answer left (suc server) ≡ some r = rw (silent, try_each) at run in
        let (s, lt, found) = try_each-from answer left (suc server) r run' in
        (s, omega arith, found)
  ]

  -- If server `s` has an answer in round `t`, the loop ends by that round, with the answer of some
  -- server.
  pub rounds-end :
      (answer : ℕ → ℕ → Option R) (servers fuel round t s : ℕ) (r : R)
      → s < servers
      → round ≤ t
      → t < fuel + round
      → answer t s ≡ some r
      → (r' : R) × (at : ℕ) × (s' : ℕ) × (rounds answer servers fuel round ≡ some r')
        × (at ≤ t)
        × (s' < servers)
        × (answer at s' ≡ some r')
  unfolding rounds
  rounds-end answer servers zero round t s r inside early enough found = absurd (omega arith)
  rounds-end answer servers (suc fuel) round t s r inside early enough found =
      elim (Option-cases (try_each (answer round) servers 0)) [
        | inr (r', run) ↦
            let (s', lt, is) = try_each-from (answer round) servers 0 r' run in
            (r', round, s', rw (run, rounds), early, omega arith, is)
        | inl silent ↦
            let split : (round ≡ t) ⊎ (round < t) = omega arith in
            elim split [
              | inl same ↦
                  let found' = subst (λ (x : ℕ). answer x s ≡ some r) (sym same) found in
                  let (r', run) =
                    try_each-found (answer round) servers 0 s r (omega arith) (omega arith)
                      found' in
                  cc
              | inr lt ↦
                  let (r', at, s', run, le, lt', is) =
                    rounds-end answer servers fuel (suc round) t s r inside (omega arith)
                      (omega arith) found in
                  (r', at, s', rw (silent, rounds) run, le, lt', is)
            ]
      ]

accepted_config :
    (answer : Option QueryReply) (config : Config)
    → query_verdict answer ≡ some config
    → (reply : QueryReply) × (answer ≡ some reply)
      × (reply.wrong_leader ≡ false)
      × (reply.config ≡ config)
accepted_config none config h = cc
accepted_config (some reply) config h = elim (Bool-cases reply.wrong_leader) [
  | inl wrong ↦ cc
  | inr right ↦
      let h' : some reply.config ≡ some config = sym (if_false _ _ right) ∙ h in
      (reply, refl, right, cc)
]

-- Query returns. If in round t one of the servers answers that it is the leader, Query returns within
-- t + 1 rounds, and what it returns is the configuration of a reply that one of the servers gave as
-- the leader in one of these rounds.
pub query-returns :
    (call : ℕ → ℕ → QueryArgs → Option QueryReply) (t s : ℕ) (num : ℤ) (ck : CtrlClerk)
    (reply : QueryReply)
    → s < ck.servers
    → call t s (record { num = num }) ≡ some reply
    → reply.wrong_leader ≡ false
    → (config : Config) × (at : ℕ) × (s' : ℕ) × (reply' : QueryReply) × (query call (suc t) num ck
        ≡ some config)
      × (at ≤ t)
      × (s' < ck.servers)
      × (call at s' (record { num = num }) ≡ some reply')
      × (reply'.wrong_leader ≡ false)
      × (reply'.config ≡ config)
unfolding query
query-returns call t s num ck reply inside answered leads =
    let (config, at, s', run, le, lt, is) =
      rounds-end (λ round s. query_verdict (call round s (record { num = num }))) ck.servers (suc t)
        0 t s reply.config inside (omega arith) (omega arith)
        (ap query_verdict answered ∙ if_false _ _ leads) in
    let (reply', came, right, same) = accepted_config _ config is in
    (config, at, s', reply', run, le, lt, came, right, same)

-- Join, Leave and Move return. If in round t one of the servers answers as the leader, each of them
-- returns within t + 1 rounds.
pub updates-return :
    (call_join : ℕ → ℕ → JoinArgs → Option JoinReply)
    (call_leave : ℕ → ℕ → LeaveArgs → Option LeaveReply)
    (call_move : ℕ → ℕ → MoveArgs → Option MoveReply) (t s : ℕ) (servers : List (ℤ × List (List ℕ)))
    (gids : List ℤ) (shard gid : ℤ) (ck : CtrlClerk)
    → s < ck.servers
    → join_verdict (call_join t s (record { servers = servers })) ≡ some tt
    → leave_verdict (call_leave t s (record { gids = gids })) ≡ some tt
    → move_verdict (call_move t s (record { shard = shard; gid = gid })) ≡ some tt
    → (join call_join (suc t) servers ck ≡ some tt)
      × (leave call_leave (suc t) gids ck ≡ some tt)
      × (move_shard call_move (suc t) shard gid ck ≡ some tt)
unfolding join leave move_shard
updates-return call_join call_leave call_move t s servers gids shard gid ck inside joined left
      moved =
    let ends : (answer : ℕ → ℕ → Option (Unit {0}))
        → answer t s ≡ some tt
        → rounds answer ck.servers (suc t) 0 ≡ some tt =
      λ answer found.
        (rounds-end answer ck.servers (suc t) 0 t s tt inside (omega arith) (omega arith)
          found).3 in
    (ends _ joined, ends _ left, ends _ moved)
