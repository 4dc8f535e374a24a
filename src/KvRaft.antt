-- ===== src/KvRaft.antt =====
-- The clerk of the replicated key/value service: src/kvraft/client.go and the data of src/kvraft/common.go.
-- A Go string is the list of its bytes. The servers are reached through labrpc: `call i s args` is
-- what the attempt with the number `i` gets from server `s`, `none` where `Call` returns false.
pub mod Loop
pub mod Retries
mod Examples
use model_lib.Prelude.{
  ℕ, zero, suc, ◌+◌, ◌%◌, Option, none, some, List, [], ◌∷◌, ltb, if◌then◌else◌,
}
use model_lib.Prelude.Go.{index_out_of_range, Outcome, ok, panic}
use model_lib.Prelude.Int.{ℤ, pos, inc}

pub data Err : Type 0 where
  err_ok err_no_key err_wrong_leader : Err
  err_other : List ℕ → Err

pub record PutAppendArgs : Type 0 where
  pub key : List ℕ
  pub value : List ℕ
  pub op : List ℕ
  pub client_id : ℤ
  pub seq : ℤ

pub record PutAppendReply : Type 0 where
  pub err : Err

pub record GetArgs : Type 0 where
  pub key : List ℕ
  pub client_id : ℤ
  pub seq : ℤ

pub record GetReply : Type 0 where
  pub err : Err
  pub value : List ℕ

-- `servers` is the number of servers, `leader_id` a position among them.
pub record Clerk : Type 0 where
  pub servers : ℕ
  pub id : ℤ
  pub leader_id : ℕ
  pub seq : ℤ

-- `id` is the random number that nrand returns.
unfoldable pub make_clerk : ℕ → ℤ → Clerk
make_clerk servers id = record { servers = servers; id = id; leader_id = 0; seq = pos 0 }

-- What Get returns on an answer; `none`: it goes on to the next server.
abbrev pub get_verdict : Option GetReply → Option (List ℕ)
get_verdict none = none
get_verdict (some reply) = elim reply.err [
  | err_no_key ↦ some []
  | err_ok ↦ some reply.value
  | err_wrong_leader ↦ none
  | err_other _ ↦ none
]

abbrev pub put_append_verdict : Option PutAppendReply → Option (Unit {0})
put_append_verdict none = none
put_append_verdict (some reply) = elim reply.err [
  | err_ok ↦ some tt
  | err_wrong_leader ↦ none
  | err_no_key ↦ none
  | err_other _ ↦ none
]

module _ {R : Type 0} where
  -- The endless loop of Get and PutAppend, for at most `fuel` attempts: attempt `i` asks `server`, and
  -- `answer i server` is the verdict on what comes back. `none`: the loop still runs.
  unfoldable pub retry : ℕ → (ℕ → ℕ → Option R) → ℕ → ℕ → ℕ → Option (Outcome (ℕ × R))
  retry servers answer zero i server = none
  retry servers answer (suc fuel) i server =
      let rest = retry servers answer fuel (suc i) ((server + 1) % servers) in
      if ltb server servers
      then (elim (answer i server) [ some r ↦ some (ok (server, r)) | none ↦ rest ])
      else some (panic index_out_of_range)

  -- The clerk remembers the server that has answered.
  abbrev pub remember : Clerk → Option (Outcome (ℕ × R)) → Option (Outcome (Clerk × R))
  remember ck none = none
  remember ck (some (ok (server, r))) = some (ok (record ck { leader_id = server }, r))
  remember ck (some (panic p)) = some (panic p)

abbrev pub get_args : List ℕ → Clerk → GetArgs
get_args key ck = record { key = key; client_id = ck.id; seq = inc ck.seq }

unfoldable pub get_key :
    (ℕ → ℕ → GetArgs → Option GetReply) → ℕ → List ℕ → Clerk → Option (Outcome (Clerk × List ℕ))
get_key call fuel key ck =
    let answer = λ (i server : ℕ). get_verdict (call i server (get_args key ck)) in
    remember (record ck { seq = inc ck.seq }) (retry ck.servers answer fuel 0 ck.leader_id)

abbrev pub put_append_args : List ℕ → List ℕ → List ℕ → Clerk → PutAppendArgs
put_append_args key value op ck = record {
  key = key;
  value = value;
  op = op;
  client_id = ck.id;
  seq = inc ck.seq;
}

unfoldable pub put_append :
    (ℕ → ℕ → PutAppendArgs → Option PutAppendReply)
    → ℕ
    → List ℕ
    → List ℕ
    → List ℕ
    → Clerk
    → Option (Outcome (Clerk × Unit {0}))
put_append call fuel key value op ck =
    let answer =
      λ (i server : ℕ). put_append_verdict (call i server (put_append_args key value op ck)) in
    remember (record ck { seq = inc ck.seq }) (retry ck.servers answer fuel 0 ck.leader_id)

-- "Put" and "Append"
abbrev pub put_op : List ℕ
put_op = 80 ∷ 117 ∷ 116 ∷ []

abbrev pub append_op : List ℕ
append_op = 65 ∷ 112 ∷ 112 ∷ 101 ∷ 110 ∷ 100 ∷ []

pub put_key :
    (ℕ → ℕ → PutAppendArgs → Option PutAppendReply)
    → ℕ
    → List ℕ
    → List ℕ
    → Clerk
    → Option (Outcome (Clerk × Unit {0}))
put_key call fuel key value ck = put_append call fuel key value put_op ck

pub append_key :
    (ℕ → ℕ → PutAppendArgs → Option PutAppendReply)
    → ℕ
    → List ℕ
    → List ℕ
    → Clerk
    → Option (Outcome (Clerk × Unit {0}))
append_key call fuel key value ck = put_append call fuel key value append_op ck
