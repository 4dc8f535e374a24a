-- ===== src/Raft/Peer/Durable.antt =====
-- Durability and terms along the life of a peer: persist, readPersist and Make of src/raft/raft.go under
-- every operation.
pub mod Restore
pub mod Operations
pub mod Effects
use model_lib.Prelude.{
  ℕ, ◌≡◌, refl, sym, ap, subst, subst₂, ◌∙◌, ◌⊎◌, inl, inr, true, false, not, ◌||◌, some, arith,
  if_true, if_false,
}
use model_lib.Prelude.Int.{ℤ, minus_one, ◌≤ℤ◌, ◌<ℤ◌, ltb_ℤ, parts_of_eq}
use model_lib.Raft.Peer.{Happens, Lives}
use model_lib.Raft.Peer.Durable.Effects.{Unstored, stores, forgets, rereads, Happens-Effect}
use model_lib.Raft.Peer.Durable.Operations.{term_later}
use model_lib.Raft.Peer.Durable.Restore.{
  SameStored, unborn, stored_state, IsDurable, persist-IsDurable, SameStored-IsDurable,
  make-IsDurable,
}
use model_lib.Raft.Persist.{
  PersistentState, Gob, GobLaws, make_persister, clone, read_raft_state, read_snapshot,
  persistent_state, persist, read_persist, read_persist_snapshot,
}
use model_lib.Raft.Roles.{to_follower}
use model_lib.Raft.Service.{blank, reread, make}
use model_lib.Raft.State.{candidate, is_candidate, Raft, RequestVoteArgs, RequestVoteReply}
use model_lib.Raft.Vote.{request_vote_response_handler}

module _ {C : Type 0} ⦃g : Gob C⦄ where
  -- Let a peer get back the term, vote, log and snapshot that it has if it crashed now, with an
  -- encoding that decodes what it has encoded. Then, whatever happens to it next, a crash and the
  -- restart after it included, its term does not fall, and it would still get back what it has,
  -- unless it was a candidate that has taken over a higher term, given its vote back and stored
  -- nothing.
  pub Happens-IsDurable :
      (laws : GobLaws g) (rf rf' : Raft C)
      → IsDurable rf
      → Happens rf rf'
      → (rf.current_term ≤ℤ rf'.current_term) × (IsDurable rf' ⊎ Unstored rf rf')
  Happens-IsDurable laws rf rf' d h = elim (Happens-Effect rf rf' h) [
    | stores (le, inl (r, e)) ↦ (le, inl (subst IsDurable (sym e) (persist-IsDurable laws r)))
    | stores (le, inr same) ↦ (le, inl (SameStored-IsDurable rf rf' same d))
    | forgets u ↦ (omega (arith, u.1), inr u)
    | rereads durable read ↦
        (term_later rf rf rf' (omega arith) (ap (λ s. s.current_term) (read ∙ d.0)), inl durable)
  ]

  -- What is read after a crash, against what the peer had: nothing lost but at most a term in which
  -- the peer has no vote.
  pub record Covers (stored had : PersistentState C) : Type 0 where
    pub log : stored.log ≡ had.log
    pub snapshot_index : stored.snapshot_index ≡ had.snapshot_index
    pub snapshot_term : stored.snapshot_term ≡ had.snapshot_term
    pub term : stored.current_term ≤ℤ had.current_term
    pub vote :
        ((stored.current_term ≡ had.current_term) × (stored.voted_for ≡ had.voted_for))
        ⊎ (had.voted_for ≡ minus_one)

  abbrev pub Recovers : Raft C → Type 0
  Recovers rf =
      Covers (stored_state rf) (persistent_state rf) × (read_snapshot rf.persister ≡ rf.snapshot)

  Covers-refl : (s : PersistentState C) → Covers s s
  Covers-refl s = record {
    log = refl;
    snapshot_index = refl;
    snapshot_term = refl;
    term = omega arith;
    vote = inl (refl, refl);
  }

  IsDurable-Recovers : (rf : Raft C) → IsDurable rf → Recovers rf
  IsDurable-Recovers rf d = (subst (Covers (stored_state rf)) d.0 (Covers-refl _), d.1)

  SameStored-Recovers : (rf rf' : Raft C) → SameStored rf rf' → Recovers rf → Recovers rf'
  SameStored-Recovers rf rf' same r = (
    subst₂ Covers (sym (ap (λ p. persistent_state (reread p unborn)) same.0)) (sym same.1) r.0,
    ap read_snapshot same.0 ∙ r.1 ∙ sym same.2,
  )

  forgets-Recovers : (rf rf' : Raft C) → Unstored rf rf' → Recovers rf → Recovers rf'
  forgets-Recovers rf rf' u (c, same) = subst Recovers (sym u.2) (
    record {
      log = c.log;
      snapshot_index = c.snapshot_index;
      snapshot_term = c.snapshot_term;
      term = omega (arith, c.term, u.1);
      vote = inr refl;
    },
    same,
  )

  pub Happens-Recovers : GobLaws g → (rf rf' : Raft C) → Happens rf rf' → Recovers rf → Recovers rf'
  Happens-Recovers laws rf rf' h r = elim (Happens-Effect rf rf' h) [
    | stores (le, inl (stored, e)) ↦
        subst Recovers (sym e) (IsDurable-Recovers (persist stored) (persist-IsDurable laws stored))
    | stores (le, inr same) ↦ SameStored-Recovers rf rf' same r
    | forgets u ↦ forgets-Recovers rf rf' u r
    | rereads durable read ↦ IsDurable-Recovers rf' durable
  ]

  pub fresh-IsDurable :
      (now : ℤ) (random peers : ℕ) (me : ℤ) (rf : Raft C)
      → rf ≡ blank now random peers me make_persister
      → IsDurable rf
  unfolding read_persist read_raft_state clone read_snapshot read_persist_snapshot make_persister
  fresh-IsDurable now random peers me rf e = subst IsDurable (sym e) (refl, refl)

  -- Whatever has happened to a peer since it was made on an empty persister, crashes and restarts
  -- included, and with an encoding that decodes what it has encoded: a crash now would lose nothing
  -- of its log and snapshot, its term would not rise, and it would keep the vote of its term, unless
  -- the peer has none.
  pub Lives-Recovers :
      (laws : GobLaws g) (now : ℤ) (random peers : ℕ) (me : ℤ) (rf : Raft C)
      → Lives (blank now random peers me make_persister) rf
      → Recovers rf
  Lives-Recovers laws now random peers me rf life =
      let born : Raft C = blank now random peers me make_persister in
      kept life (IsDurable-Recovers born (fresh-IsDurable now random peers me born refl))
    where
      kept : {rf rf' : Raft C} → Lives rf rf' → Recovers rf → Recovers rf'
      kept (Lives.as_it_is rf) r = r
      kept (Lives.goes_on rf rf' rf'' h life) r = kept life (Happens-Recovers laws rf rf' h r)

  -- The step by which a candidate takes over the term of a reply.
  steps_down :
      (rf : Raft C) (args : RequestVoteArgs) (reply : RequestVoteReply)
      → rf.role ≡ candidate
      → args.term ≡ rf.current_term
      → rf.current_term <ℤ reply.term
      → request_vote_response_handler rf args reply ≡ (to_follower reply.term rf, false)
  unfolding request_vote_response_handler
  steps_down rf args reply asking same newer =
      let asks : not (is_candidate rf.role) ≡ false = ap (λ r. not (is_candidate r)) asking in
      let fresh : (ltb_ℤ reply.term rf.current_term || ltb_ℤ args.term rf.current_term) ≡ false =
        ground (arith, parts_of_eq same) in
      let steps : ltb_ℤ rf.current_term reply.term ≡ true = ground arith in
      if_false _ _ asks ∙ if_false _ _ fresh ∙ if_true _ _ steps

  to_follower_newer :
      (term : ℤ) (rf : Raft C)
      → rf.current_term <ℤ term
      → ((to_follower term rf).current_term ≡ term)
        × ((to_follower term rf).persister ≡ rf.persister)
  unfolding to_follower
  to_follower_newer term rf newer =
      let steps : ltb_ℤ rf.current_term term ≡ true = ground arith in
      (
        ap (λ (r : Raft C). r.current_term) (if_true _ _ steps),
        ap (λ (r : Raft C). r.persister) (if_true _ _ steps),
      )

  -- A candidate whose stable storage holds its term, vote, log and snapshot, and whose reply to a
  -- vote request of its own term names a higher term, takes that term over. If it then crashes,
  -- what Make returns is back in the term before, with the vote of it.
  pub vote_answered-forgets :
      (rf rf' : Raft C) (args : RequestVoteArgs) (reply : RequestVoteReply) (now : ℤ) (random : ℕ)
      → IsDurable rf
      → rf.role ≡ candidate
      → args.term ≡ rf.current_term
      → rf.current_term <ℤ reply.term
      → make now random rf.peers rf.me (request_vote_response_handler rf args reply).0.persister
        ≡ some rf'
      → ((request_vote_response_handler rf args reply).0.current_term ≡ reply.term)
        × (rf'.current_term ≡ rf.current_term)
        × (rf'.voted_for ≡ rf.voted_for)
  vote_answered-forgets rf rf' args reply now random d asking same newer e =
      let stepped = ap (λ r. r.0) (steps_down rf args reply asking same newer) in
      let (term, stable) = to_follower_newer reply.term rf newer in
      let persister : (request_vote_response_handler rf args reply).0.persister ≡ rf.persister =
        ap (λ (r : Raft C). r.persister) stepped ∙ stable in
      let back =
        (make-IsDurable now random rf.peers rf.me _ rf' e).1
        ∙ ap (λ p. persistent_state (reread p unborn)) persister
        ∙ d.0 in
      (
        ap (λ (r : Raft C). r.current_term) stepped ∙ term,
        ap (λ s. s.current_term) back,
        ap (λ s. s.voted_for) back,
      )
