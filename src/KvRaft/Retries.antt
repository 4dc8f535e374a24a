-- ===== src/KvRaft/Retries.antt =====
-- What the clerk's Get, Put and Append of src/kvraft/client.go return.
use model_lib.KvRaft.{
  PutAppendArgs, PutAppendReply, GetArgs, GetReply, Clerk, get_verdict, put_append_verdict,
  remember, get_args, get_key, put_append_args, put_append,
}
use model_lib.KvRaft.Loop.{retry-first, Responds, retry-returns}
use model_lib.Prelude.{ℕ, ◌+◌, ◌%◌, ◌<◌, ◌≡◌, refl, ap, ◌∙◌, Option, none, some, List, arith}
use model_lib.Prelude.Go.{ok}
use model_lib.Prelude.Int.{inc}

-- Get ends with the first conclusive answer. A clerk whose remembered leader is one of the servers
-- asks them in turn, from that leader on, each time with the same client number and the next
-- sequence number. If the first k answers are inconclusive and the next one is conclusive, then with
-- more than k attempts Get returns its value ("" for a missing key), and the clerk has counted the
-- request and remembers the server that answered.
pub get_key-first :
    (call : ℕ → ℕ → GetArgs → Option GetReply) (fuel k : ℕ) (key value : List ℕ) (ck : Clerk)
    → ck.leader_id < ck.servers
    → k < fuel
    → ((j : ℕ)
        → j < k
        → get_verdict (call j ((ck.leader_id + j) % ck.servers) (get_args key ck)) ≡ none)
    → get_verdict (call k ((ck.leader_id + k) % ck.servers) (get_args key ck)) ≡ some value
    → get_key call fuel key ck
      ≡ some
          (ok (record ck { seq = inc ck.seq; leader_id = (ck.leader_id + k) % ck.servers }, value))
unfolding get_key
get_key-first call fuel k key value ck inside more silent found =
    ap (remember (record ck { seq = inc ck.seq })) (
      retry-first ck.servers (λ (i server : ℕ). get_verdict (call i server (get_args key ck))) k
        fuel 0 ck.leader_id value inside more
        (λ j lt.
          ap (λ (n : ℕ). get_verdict (call n ((ck.leader_id + j) % ck.servers) (get_args key ck)))
            (omega arith)
          ∙ silent j lt)
        (ap (λ (n : ℕ). get_verdict (call n ((ck.leader_id + k) % ck.servers) (get_args key ck)))
            (omega arith)
          ∙ found))

-- Get returns. If one of the servers gives a conclusive answer to every attempt from the t-th on, Get
-- returns a value without a panic within t attempts and one for each server.
pub get_key-returns :
    (call : ℕ → ℕ → GetArgs → Option GetReply) (t s : ℕ) (key : List ℕ) (ck : Clerk)
    → ck.leader_id < ck.servers
    → s < ck.servers
    → Responds ck.servers (λ (i server : ℕ). get_verdict (call i server (get_args key ck))) t s
    → (ck' : Clerk) × (value : List ℕ) × (get_key call (t + ck.servers) key ck
        ≡ some (ok (ck', value)))
unfolding get_key
get_key-returns call t s key ck inside s_in up =
    let (at, value, run) =
      retry-returns ck.servers (λ (i server : ℕ). get_verdict (call i server (get_args key ck))) t s
        (t + ck.servers) 0 ck.leader_id up s_in inside (omega arith) (omega arith) in
    (
      record ck { seq = inc ck.seq; leader_id = at },
      value,
      ap (remember (record ck { seq = inc ck.seq })) run,
    )

-- Put and Append return. If one of the servers answers OK to every attempt from the t-th on,
-- PutAppend returns without a panic within t attempts and one for each server, and the clerk has
-- counted one request.
pub put_append-returns :
    (call : ℕ → ℕ → PutAppendArgs → Option PutAppendReply) (t s : ℕ) (key value op : List ℕ)
    (ck : Clerk)
    → ck.leader_id < ck.servers
    → s < ck.servers
    → Responds ck.servers
        (λ (i server : ℕ). put_append_verdict (call i server (put_append_args key value op ck)))
        t
        s
    → (ck' : Clerk) × (put_append call (t + ck.servers) key value op ck ≡ some (ok (ck', tt)))
      × (ck'.seq ≡ inc ck.seq)
unfolding put_append
put_append-returns call t s key value op ck inside s_in up =
    let (at, r, run) =
      retry-returns ck.servers
        (λ (i server : ℕ). put_append_verdict (call i server (put_append_args key value op ck))) t s
        (t + ck.servers) 0 ck.leader_id up s_in inside (omega arith) (omega arith) in
    (
      record ck { seq = inc ck.seq; leader_id = at },
      ap (remember (record ck { seq = inc ck.seq })) run,
      refl,
    )
