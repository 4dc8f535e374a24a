-- ===== src/Labrpc/Answer.antt =====
-- What the answer to a request says: every run of processReq of src/labrpc/labrpc.go.
use model_lib.Labrpc.{at_key, ReqMsg, ReplyMsg, failed}
use model_lib.Labrpc.Network.{
  Network, or_false, or_nil, is_server, read_endname_info, is_server_dead, Progress, arrived,
  waiting, delayed, answered, Handler, not_called, calls, returned, begin, finish,
}
use model_lib.Labrpc.Trip.{
  Trip, Step, elsewhere, begins, executes, gives_up, finishes, sends, Steps, stays, then_step,
  start, Executed, Settled, admit-Settled, Told, waited_for, executed_Settled,
}
use model_lib.Prelude.{
  ℕ, ◌≤◌, ◌≡◌, refl, sym, ap, subst, ◌≢◌, ◌⊎◌, inl, inr, Bool, true, false, not, ◌&&◌, List, [],
  ◌∷◌, arith, if_cases, length,
}

-- The reply is sent, or will be, only if the server was alive at the end of the wait.
Finished : ReplyMsg → Bool → Progress → Type 0
Finished reply dead progress =
    (progress ≡ answered failed)
    ⊎ ((dead ≡ false) × ((progress ≡ delayed reply) ⊎ (progress ≡ answered reply)))

Finished-Settled :
    (reply : ReplyMsg) (dead : Bool) (address : ℕ) (progress : Progress) (handler : Handler)
    → handler ≡ returned address reply
    → Finished reply dead progress
    → Settled progress handler
unfolding Finished
Finished-Settled reply dead address progress handler back (inl lost) =
    subst (λ p. Settled p handler) (sym lost) (inl refl)
Finished-Settled reply dead address progress handler back (inr (_, inl later)) =
    subst (λ p. Settled p handler) (sym later) (inr (address, back))
Finished-Settled reply dead address progress handler back (inr (_, inr now)) =
    subst (λ p. Settled p handler) (sym now) (inr (address, back))

module _ {S : Type 0} where
  record IsTrip (t : Trip S) : Type 0 where
    executed : Executed t.handler t.executions
    settled : Settled t.progress t.handler

module _ {S : Type 0} (req : ReqMsg) where
  begin-Settled :
      (drops : Bool) (rn : Network S)
      → let (progress, handler) = begin drops req rn in
        Executed handler [] × Settled progress handler
  unfolding begin
  begin-Settled drops rn =
      let (enabled, servername, server, reliable, long_reordering) =
        read_endname_info req.endname rn in
      admit-Settled drops enabled servername server reliable long_reordering

  finish-Finished :
      (drops delays reliable long_reordering : Bool) (servername server : ℕ) (reply : ReplyMsg)
      (rn : Network S)
      → Finished reply
          (is_server_dead req.endname servername server rn)
          (finish drops delays req reliable long_reordering servername server reply rn)
  unfolding finish Finished
  finish-Finished drops delays reliable long_reordering servername server reply rn =
      let dead = is_server_dead req.endname servername server rn in
      let P = Finished reply dead in
      if_cases P dead _ _ (λ _. inl refl)
        λ alive.
          if_cases P (not reliable && drops) _ _ (λ _. inl refl)
            λ _.
              if_cases P (long_reordering && delays) _ _ (λ _. inr (alive, inl refl))
                (λ _. inr (alive, inr refl))

  step-IsTrip : (t t' : Trip S) → Step req t t' → IsTrip t → IsTrip t'
  step-IsTrip t t' (elsewhere rn) h = record { executed = h.executed; settled = h.settled }
  step-IsTrip t t' (begins drops e) h =
      let idle = subst (λ p. Settled p t.handler) e h.settled in
      let none_yet = subst (λ d. Executed d t.executions) idle h.executed in
      let (executed, settled) = begin-Settled drops t.network in
      record {
        executed = subst (Executed (begin drops req t.network).1) (sym none_yet) executed;
        settled = settled;
      }
  step-IsTrip t t' (executes server rn reply e run) h =
      let none_yet = subst (λ d. Executed d t.executions) e h.executed in
      record {
        executed = ap (◌∷◌ (server, reply)) none_yet;
        settled = executed_Settled server reply t.progress (subst (Settled t.progress) e h.settled);
      }
  step-IsTrip t t' (gives_up reliable long_reordering servername server e dead) h = record {
    executed = h.executed;
    settled = inl refl;
  }
  step-IsTrip t t'
        (finishes drops delays reliable long_reordering servername server address reply e back) h =
      record {
        executed = h.executed;
        settled = Finished-Settled reply _ address _ t.handler back (
            finish-Finished drops delays reliable long_reordering servername server reply
              t.network);
      }
  step-IsTrip t t' (sends reply e) h = record {
    executed = h.executed;
    settled = subst (λ p. Settled p t.handler) e h.settled;
  }

  Steps-IsTrip : (t t' : Trip S) → Steps req t t' → IsTrip t → IsTrip t'
  Steps-IsTrip t t' stays h = h
  Steps-IsTrip t t'' (then_step {t'} steps step) h =
      step-IsTrip t' t'' step (Steps-IsTrip t t' steps h)

  start-IsTrip : (rn : Network S) → IsTrip (start req rn)
  start-IsTrip rn = record { executed = refl; settled = refl }

  -- However a request and everything else in the network are interleaved: its handler is called at
  -- most once, and when the request is answered, the answer is a failure, or the handler has been
  -- called once, on one server, and the answer is what it has returned.
  pub answer-Executed :
      (rn : Network S) (t : Trip S)
      → Steps req (start req rn) t
      → (length t.executions ≤ 1) × Told t.progress t.executions
  answer-Executed rn t steps =
      let h = Steps-IsTrip (start req rn) t steps (start-IsTrip rn) in
      (at_most_once t.handler t.executions h.executed, told t.progress h.settled)
    where
      ran :
          (server : ℕ) (answer : ReplyMsg)
          → t.handler ≡ returned server answer
          → t.executions ≡ (server, answer) ∷ []
      ran server answer back =
          subst (λ d. Executed d t.executions) back
            (Steps-IsTrip (start req rn) t steps (start-IsTrip rn)).executed

      at_most_once :
          (handler : Handler) (executions : List (ℕ × ReplyMsg))
          → Executed handler executions
          → length executions ≤ 1
      at_most_once not_called executions e = rw e (omega arith)
      at_most_once (calls server) executions e = rw e (omega arith)
      at_most_once (returned server reply) executions e = rw e (omega arith)

      told : (progress : Progress) → Settled progress t.handler → Told progress t.executions
      told arrived settled = tt
      told (waiting reliable long_reordering servername server) settled = tt
      told (delayed answer) (inl lost) = inl lost
      told (delayed answer) (inr (server, back)) = inr (server, ran server answer back)
      told (answered answer) (inl lost) = inl lost
      told (answered answer) (inr (server, back)) = inr (server, ran server answer back)

  alive_lem :
      (rn : Network S) (servername server : ℕ)
      → is_server_dead req.endname servername server rn ≡ false
      → (or_false (at_key req.endname rn.enabled) ≡ true)
        × (is_server (or_nil (at_key servername rn.servers)) server ≡ true)
  unfolding is_server_dead
  alive_lem rn servername server alive = (ground arith, ground arith)

  -- A point of a run at which the end is enabled, the name of the server that the end was connected
  -- to stands for the server that was called, and the handler has returned the reply.
  pub record Alive (t : Trip S) (reply : ReplyMsg) : Type 0 where
    pub reliable : Bool
    pub long_reordering : Bool
    pub servername : ℕ
    pub server : ℕ
    pub waits : t.progress ≡ waiting reliable long_reordering servername server
    pub enabled : or_false (at_key req.endname t.network.enabled) ≡ true
    pub here : is_server (or_nil (at_key servername t.network.servers)) server ≡ true
    pub replied : t.handler ≡ returned server reply

  -- The run has passed such a point.
  abbrev pub WasAlive : Trip S → Trip S → ReplyMsg → Type 0
  WasAlive t₀ t reply = (t₁ : Trip S) × Steps req t₀ t₁ × Steps req t₁ t × Alive t₁ reply

  -- What the progress tells of the run behind it.
  abbrev Decided : Trip S → Trip S → Progress → Type 0
  Decided t₀ t arrived = Unit {0}
  Decided t₀ t (waiting reliable long_reordering servername server) = Unit {0}
  Decided t₀ t (delayed reply) = (reply ≡ failed) ⊎ WasAlive t₀ t reply
  Decided t₀ t (answered answer) = (answer ≡ failed) ⊎ WasAlive t₀ t answer

  Decided-later :
      (t₀ t t' : Trip S) (progress : Progress)
      → Step req t t'
      → Decided t₀ t progress
      → Decided t₀ t' progress
  Decided-later t₀ t t' arrived step d = tt
  Decided-later t₀ t t' (waiting reliable long_reordering servername server) step d = tt
  Decided-later t₀ t t' (delayed reply) step (inl lost) = inl lost
  Decided-later t₀ t t' (delayed reply) step (inr (t₁, before, after, alive)) =
      inr (t₁, before, then_step after step, alive)
  Decided-later t₀ t t' (answered answer) step (inl lost) = inl lost
  Decided-later t₀ t t' (answered answer) step (inr (t₁, before, after, alive)) =
      inr (t₁, before, then_step after step, alive)

  -- Without an execution nothing but a failure is decided.
  Decided-idle :
      (t₀ t : Trip S) (progress : Progress) (handler : Handler)
      → Executed handler []
      → Settled progress handler
      → Decided t₀ t progress
  Decided-idle t₀ t progress handler none_yet settled = decided progress settled
    where
      never : (server : ℕ) (reply : ReplyMsg) → ¬ Executed (returned server reply) []
      never server reply e = cc

      not_run : (server : ℕ) (reply : ReplyMsg) → handler ≡ returned server reply → ⊥
      not_run server reply back = never server reply (subst (λ h. Executed h []) back none_yet)

      decided : (p : Progress) → Settled p handler → Decided t₀ t p
      decided arrived s = tt
      decided (waiting reliable long_reordering servername server) s = tt
      decided (delayed reply) (inl lost) = inl lost
      decided (delayed reply) (inr (server, back)) = absurd (not_run server reply back)
      decided (answered answer) (inl lost) = inl lost
      decided (answered answer) (inr (server, back)) = absurd (not_run server answer back)

  Decided-Finished :
      (t₀ t t' : Trip S) (reply : ReplyMsg) (dead : Bool) (progress : Progress)
      → (dead ≡ false → WasAlive t₀ t' reply)
      → Finished reply dead progress
      → Decided t₀ t' progress
  unfolding Finished
  Decided-Finished t₀ t t' reply dead progress was (inl lost) =
      subst (Decided t₀ t') (sym lost) (inl refl)
  Decided-Finished t₀ t t' reply dead progress was (inr (alive, inl later)) =
      subst (Decided t₀ t') (sym later) (inr (was alive))
  Decided-Finished t₀ t t' reply dead progress was (inr (alive, inr now)) =
      subst (Decided t₀ t') (sym now) (inr (was alive))

  step-Decided :
      (rn : Network S) (t t' : Trip S) (step : Step req t t')
      → Steps req (start req rn) t
      → Decided (start req rn) t t.progress
      → Decided (start req rn) t' t'.progress
  step-Decided rn t t' (elsewhere rn') steps d =
      Decided-later (start req rn) t t' t.progress (elsewhere rn') d
  step-Decided rn t t' (begins drops e) steps d =
      let (none_yet, settled) = begin-Settled drops t.network in
      Decided-idle (start req rn) t' _ _ none_yet settled
  step-Decided rn t t' (executes server rn' reply e run) steps d =
      Decided-later (start req rn) t t' t.progress (executes server rn' reply e run) d
  step-Decided rn t t' (gives_up reliable long_reordering servername server e dead) steps d =
      inl refl
  step-Decided rn t t'
        (finishes drops delays reliable long_reordering servername server address reply e back)
        steps d =
      Decided-Finished (start req rn) t t' reply
        (is_server_dead req.endname servername server t.network) t'.progress
        (λ alive. (
          t,
          steps,
          then_step stays (
              finishes drops delays reliable long_reordering servername server address reply e
                back),
          record {
            reliable = reliable;
            long_reordering = long_reordering;
            servername = servername;
            server = server;
            waits = e;
            enabled = (alive_lem t.network servername server alive).0;
            here = (alive_lem t.network servername server alive).1;
            replied =
                waited_for reliable long_reordering servername server address t.handler reply
                  (subst (λ p. Settled p t.handler) e
                    (Steps-IsTrip (start req rn) t steps (start-IsTrip rn)).settled)
                  back;
          },
        ))
        (finish-Finished drops delays reliable long_reordering servername server reply t.network)
  step-Decided rn t t' (sends reply e) steps d =
      Decided-later (start req rn) t t' (delayed reply) (sends reply e)
        (subst (Decided (start req rn) t) e d)

  Steps-Decided :
      (rn : Network S) (t : Trip S)
      → Steps req (start req rn) t
      → Decided (start req rn) t t.progress
  Steps-Decided rn t stays = tt
  Steps-Decided rn t (then_step {t'} steps step) =
      step-Decided rn t' t step steps (Steps-Decided rn t' steps)

  -- When a request is answered with anything but a failure, its run has passed a point at which the
  -- end was enabled and the name of the server that the end was connected to stood for the server
  -- that was called, and that server's handler had returned this answer. The answer itself may be
  -- sent later, when a reordering network delays it.
  pub answer-alive :
      (rn : Network S) (t : Trip S) (answer : ReplyMsg)
      → Steps req (start req rn) t
      → t.progress ≡ answered answer
      → answer ≢ failed
      → WasAlive (start req rn) t answer
  answer-alive rn t answer steps e success =
      elim (subst (Decided (start req rn) t) e (Steps-Decided rn t steps)) [
        | inl lost ↦ absurd (success lost)
        | inr was ↦ was
      ]
