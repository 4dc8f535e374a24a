-- ===== src/Raft/Cluster/Invariant.antt =====
-- An invariant of the peers of a cluster, from what each step of a peer keeps.
use model_lib.Prelude.{
  ℕ, zero, suc, ◌≡◌, refl, Option, none, some, List, [], ◌∷◌, ltb, length, get_elem?, set, All,
}
use model_lib.Prelude.Ensures.{
  Ensures, ensuring, Ensures-ok, Ensures-panic, Ensures-if, Ensures-then, Ensures-bind,
}
use model_lib.Prelude.Go.{Outcome, ok, ◌>>=◌, or_panic, get, put, slice_to, slice_from}
use model_lib.Prelude.Int.{ℤ, pos, negsuc, inc}
use model_lib.Raft.Append.{append_entries_request_handler, leader_ticker_round}
use model_lib.Raft.Calls.{request_vote_call, append_entries_call, install_snapshot_call}
use model_lib.Raft.Cluster.{
  Message, vote_request, vote_reply, won, append_request, append_reply, install_request,
  install_reply, Cluster, Event, ticks, delivers, loses, broadcasts, submits, compacts, crashes,
  with_peer, receive, take_message, happen, run_events,
}
use model_lib.Raft.FollowerLog.{answer}
use model_lib.Raft.Peer.{Happens}
use model_lib.Raft.Persist.{Gob}
use model_lib.Raft.Roles.{to_leader}
use model_lib.Raft.Service.{raft_start, make}
use model_lib.Raft.Snapshot.{install_snapshot_request_handler, raft_snapshot}
use model_lib.Raft.State.{Raft, zero_append_reply, zero_snapshot_reply}

or_panic-ok {ℓ} : {A : Type ℓ} (o : Option A) {a : A} → or_panic o ≡ ok a → o ≡ some a
or_panic-ok none e = cc
or_panic-ok (some a) e = cc

module _ {ℓ κ} {A : Type ℓ} (P : A → Type κ) where
  All-get_elem : (xs : List A) (n : ℕ) → All P xs → Ensures P (or_panic (get_elem? xs n))
  All-get_elem [] n h = Ensures-panic _ _
  All-get_elem (x ∷ xs) zero h = Ensures-ok _ _ h.0
  All-get_elem (x ∷ xs) (suc n) h = All-get_elem xs n h.1

  All-get : (xs : List A) (i : ℤ) → All P xs → Ensures P (get xs i)
  All-get xs (pos n) h = All-get_elem xs n h
  All-get xs (negsuc n) h = Ensures-panic _ _

  All-set : (xs : List A) (n : ℕ) (a : A) → All P xs → P a → All P (set xs n a)
  All-set [] n a h p = tt
  All-set (x ∷ xs) zero a h p = (p, h.1)
  All-set (x ∷ xs) (suc n) a h p = (h.0, All-set xs n a h.1 p)

  All-put : (xs : List A) (i : ℤ) (a : A) → All P xs → P a → Ensures (All P) (put xs i a)
  All-put xs (pos n) a h p =
      Ensures-if _ (ltb n (length xs)) _ _ (Ensures-ok _ _ (All-set xs n a h p)) (Ensures-panic _ _)
  All-put xs (negsuc n) a h p = Ensures-panic _ _

module _ {κ} {C : Type 0} ⦃g : Gob C⦄ (P : Raft C → Type κ)
    (keeps : (rf rf' : Raft C) → Happens rf rf' → P rf → P rf') where
  abbrev Holds : Cluster C → Type κ
  Holds q = All P q.peers

  abbrev HoldsAfter : Raft C × List (Message C) → Type κ
  HoldsAfter r = P r.0

  -- What one peer does, in a cluster.
  with_peer-Holds :
      (i : ℤ) (act : Raft C → Outcome (Raft C × List (Message C))) (q : Cluster C)
      → ((rf : Raft C) → P rf → Ensures HoldsAfter (act rf))
      → Holds q
      → Ensures Holds (with_peer i act q)
  unfolding with_peer
  with_peer-Holds i act q acts h = Ensures-then P _ _ _ (All-get P q.peers i h) λ rf p.
      Ensures-then HoldsAfter _ _ _ (acts rf p) λ stepped p'.
        Ensures-then (All P) _ _ _ (All-put P q.peers i stepped.0 h p')
          λ peers h'. Ensures-ok _ _ h'

  -- The step of a peer that returns its new state.
  becomes :
      (rf : Raft C) (m : Outcome (Raft C)) (msgs : Raft C → List (Message C))
      → ((rf' : Raft C) → m ≡ ok rf' → Happens rf rf')
      → P rf
      → Ensures HoldsAfter (do rf' ← m; ok (rf', msgs rf'))
  becomes rf m msgs happens p =
      Ensures-then P _ m _ (ensuring λ rf' e. keeps rf rf' (happens rf' e) p)
        λ rf' p'. Ensures-ok _ _ p'

  -- The same for a step that returns a result, too.
  answers :
      {A : Type 0} (rf : Raft C) (m : Outcome (Raft C × A)) (msgs : Raft C × A → List (Message C))
      → ((rf' : Raft C) (a : A) → m ≡ ok (rf', a) → Happens rf rf')
      → P rf
      → Ensures HoldsAfter (do r ← m; ok (r.0, msgs r))
  answers {A} rf m msgs happens p =
      Ensures-then (λ (r : Raft C × A). P r.0) _ m _
        (ensuring λ r e. keeps rf r.0 (happens r.0 r.1 e) p) λ r p'. Ensures-ok _ _ p'

  receive-Holds :
      (now : ℤ) (m : Message C) (q : Cluster C) → Holds q → Ensures Holds (receive now m q)
  unfolding receive request_vote_call append_entries_call install_snapshot_call
  receive-Holds now (vote_request server args) q h =
      with_peer-Holds server _ q
        (λ rf p. Ensures-ok _ _ (keeps rf _ (Happens.vote_asked now args _ refl) p)) h
  receive-Holds now (vote_reply server args answer) q h =
      with_peer-Holds server _ q
        (λ rf p. Ensures-ok _ _ (keeps rf _ (Happens.vote_answered args _ _ refl) p)) h
  receive-Holds now (won server) q h =
      with_peer-Holds server _ q
        (λ rf p. becomes rf (to_leader rf) _ (λ rf' e. Happens.becomes_leader e) p) h
  receive-Holds now (append_request server args) q h =
      with_peer-Holds server _ q
        (λ rf p.
          answers rf (append_entries_request_handler now rf args zero_append_reply) _
            (λ rf' reply e. Happens.append_asked now args reply e) p)
        h
  receive-Holds now (append_reply server args answer) q h =
      with_peer-Holds server _ q
        (λ rf p. becomes rf _ _ (λ rf' e. Happens.append_answered args _ e) p) h
  receive-Holds now (install_request server args) q h =
      with_peer-Holds server _ q
        (λ rf p.
          answers rf (install_snapshot_request_handler now rf args zero_snapshot_reply) _
            (λ rf' reply e. Happens.install_asked now args reply e) p)
        h
  receive-Holds now (install_reply server args answer) q h =
      with_peer-Holds server _ q
        (λ rf p. becomes rf _ _ (λ rf' e. Happens.install_answered args _ e) p) h

  take_message-Holds :
      (n : ℕ) (q : Cluster C)
      → Holds q
      → Ensures (λ (r : Message C × Cluster C). Holds r.1) (take_message n q)
  take_message-Holds n q h = Ensures-bind _ (get q.sent (pos n)) _ λ m.
      Ensures-bind _ (slice_to q.sent (pos n)) _
        λ before. Ensures-bind _ (slice_from q.sent (inc (pos n))) _ λ after. Ensures-ok _ _ h

  happen-Holds : (e : Event C) (q : Cluster C) → Holds q → Ensures Holds (happen e q)
  unfolding happen
  happen-Holds (ticks i now random) q h =
      with_peer-Holds (pos i) _ q
        (λ rf p. Ensures-ok _ _ (keeps rf _ (Happens.ticked now random _ refl) p)) h
  happen-Holds (delivers n now) q h =
      Ensures-then (λ (r : Message C × Cluster C). Holds r.1) _ _ _ (take_message-Holds n q h)
        λ picked h'. receive-Holds now picked.0 picked.1 h'
  happen-Holds (loses n) q h =
      Ensures-then (λ (r : Message C × Cluster C). Holds r.1) _ _ _ (take_message-Holds n q h)
        λ picked h'. Ensures-ok _ _ h'
  happen-Holds (broadcasts i) q h =
      with_peer-Holds (pos i) _ q
        (λ rf p.
          answers rf (leader_ticker_round rf) _ (λ rf' requests e. Happens.led_round requests e) p)
        h
  happen-Holds (submits i command) q h =
      with_peer-Holds (pos i) _ q
        (λ rf p.
          answers rf (raft_start command rf) _
            (λ rf' result e. Happens.command_started command result e) p)
        h
  happen-Holds (compacts i index bytes) q h =
      with_peer-Holds (pos i) _ q
        (λ rf p.
          becomes rf (raft_snapshot index bytes rf) _ (λ rf' e. Happens.log_compacted index bytes e)
            p)
        h
  happen-Holds (crashes i now random) q h =
      with_peer-Holds (pos i) _ q
        (λ rf p.
          becomes rf (or_panic (make now random rf.peers rf.me rf.persister)) _
            (λ rf' e. Happens.was_restarted now random (or_panic-ok _ e)) p)
        h

  -- What each step of a peer keeps, each run of the cluster keeps of all its peers.
  pub run_events-Holds :
      (events : List (Event C)) (q : Cluster C) → Holds q → Ensures Holds (run_events events q)
  unfolding run_events
  run_events-Holds [] q h = Ensures-ok _ _ h
  run_events-Holds (e ∷ events) q h =
      Ensures-then Holds _ _ _ (happen-Holds e q h) λ q' h'. run_events-Holds events q' h'
