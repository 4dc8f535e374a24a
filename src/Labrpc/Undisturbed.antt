-- ===== src/Labrpc/Undisturbed.antt =====
-- A request that nothing disturbs: processReq of src/labrpc/labrpc.go from its start to its answer.
use model_lib.Labrpc.{Server, ReqMsg, ReplyMsg, replies, server_dispatch}
use model_lib.Labrpc.Network.{
  Network, is_server_dead, arrived, waiting, delayed, answered, not_called, calls, returned, begin,
  execute, finish,
}
use model_lib.Labrpc.Quiet.{
  Reaches, begin_reached, reached_alive, finish_alive, execute_lem, dispatch-count,
}
use model_lib.Labrpc.Trip.{
  Trip, Step, elsewhere, begins, executes, gives_up, finishes, sends, Steps, stays, then_step,
  start, answered-injective, delayed-injective,
}
use model_lib.Prelude.{
  ℕ, ◌+◌, ◌≡◌, refl, sym, ap, subst, ap₂, ◌∙◌, Bool, true, false, some, ◌∷◌, arith, some-injective,
  get_elem?, set,
}

module _ {S : Type 0} (req : ReqMsg) where
  -- The step is one of the request's own.
  abbrev pub IsOwn : {t t' : Trip S} → Step req t t' → Type 0
  IsOwn (elsewhere rn) = ⊥
  IsOwn (begins drops e) = Unit {0}
  IsOwn (executes server rn reply e run) = Unit {0}
  IsOwn (gives_up reliable long_reordering servername server e dead) = Unit {0}
  IsOwn (finishes drops delays reliable long_reordering servername server address reply e back) =
      Unit {0}
  IsOwn (sends reply e) = Unit {0}

  -- Nothing else happens during the run.
  abbrev pub Alone : {t t' : Trip S} → Steps req t t' → Type 0
  Alone stays = Unit {0}
  Alone (then_step steps step) = Alone steps × IsOwn step

  first_step : {t t' t'' : Trip S} → Step req t t' → Steps req t' t'' → Steps req t t''
  first_step step stays = then_step stays step
  first_step step (then_step steps last) = then_step (first_step step steps) last

  first_step-Alone :
      {t t' t'' : Trip S} (step : Step req t t') (steps : Steps req t' t'')
      → IsOwn step
      → Alone steps
      → Alone (first_step step steps)
  unfolding first_step
  first_step-Alone step stays own alone = (tt, own)
  first_step-Alone step (then_step steps last) own (alone, o) =
      (first_step-Alone step steps own alone, o)

module _ {S : Type 0} (req : ReqMsg) (rn : Network S) (servername server : ℕ) (rs' : Server S)
    (reply : ReplyMsg) where
  abbrev pub handled_network : Network S
  handled_network = record rn { store = set rn.store server rs' }

  -- The run goes on, by steps of the request alone, to the reply.
  abbrev pub Ends : Trip S → Type 0
  Ends t =
      (t' : Trip S) × (more : Steps req t t') × Alone req more
      × (t'.progress ≡ answered reply)
      × (t'.network ≡ handled_network)

  -- Where an undisturbed request can be.
  data OnTheWay (t : Trip S) : Type 0 where
    came : t.network ≡ rn → t.progress ≡ arrived → t.handler ≡ not_called → OnTheWay t
    asked :
        t.network ≡ rn
        → t.progress ≡ waiting true rn.long_reordering servername server
        → t.handler ≡ calls server
        → OnTheWay t
    served :
        t.network ≡ handled_network
        → t.progress ≡ waiting true rn.long_reordering servername server
        → t.handler ≡ returned server reply
        → OnTheWay t
    late :
        t.network ≡ handled_network
        → t.progress ≡ delayed reply
        → t.handler ≡ returned server reply
        → OnTheWay t
    told :
        t.network ≡ handled_network
        → t.progress ≡ answered reply
        → t.handler ≡ returned server reply
        → OnTheWay t

  same_waiting :
      {r r' l l' : Bool} {n n' s s' : ℕ}
      → waiting r l n s ≡ waiting r' l' n' s'
      → (r ≡ r') × (l ≡ l') × (n ≡ n') × (s ≡ s')
  same_waiting e = (cc, cc, cc, cc)

  same_returned : {m n : ℕ} {a b : ReplyMsg} → returned m a ≡ returned n b → (m ≡ n) × (a ≡ b)
  same_returned e = (cc, cc)

  same_call : {m n : ℕ} → calls m ≡ calls n → m ≡ n
  same_call e = cc

  module _ (rs : Server S) (reached : Reaches req rn servername server)
      (reliable : rn.reliable ≡ true) (found : get_elem? rn.store server ≡ some rs)
      (handled : server_dispatch req rs ≡ replies rs' reply) where
    still_reached : Reaches req handled_network servername server
    still_reached = record {
      enabled = reached.enabled;
      connected = reached.connected;
      served = reached.served;
    }

    alive_before : is_server_dead req.endname servername server rn ≡ false
    alive_before = reached_alive req rn servername server reached

    alive_after : is_server_dead req.endname servername server handled_network ≡ false
    alive_after = reached_alive req handled_network servername server still_reached

    ran : execute req server rn ≡ some (handled_network, reply)
    ran = execute_lem req rn server rs rs' reply found handled

    not_dead :
        {net : Network S} (t : Trip S) (r l : Bool) (n s : ℕ)
        → t.network ≡ net
        → waiting r l n s ≡ waiting true rn.long_reordering servername server
        → is_server_dead req.endname n s t.network ≡ true
        → is_server_dead req.endname servername server net ≡ false
        → ⊥
    not_dead t r l n s at w dead alive = let (r≡, l≡, n≡, s≡) = same_waiting w in cc

    begins-OnTheWay :
        (t : Trip S) (drops : Bool)
        → t.network ≡ rn
        → OnTheWay (record t {
          progress = (begin drops req t.network).0;
          handler = (begin drops req t.network).1;
        })
    begins-OnTheWay t drops at =
        let began =
          ap (begin drops req) at ∙ begin_reached req drops rn servername server reached reliable in
        asked at (ap (λ p. p.0) began) (ap (λ p. p.1) began)

    finishes-OnTheWay :
        (t : Trip S) (drops delays r l : Bool) (n s : ℕ) (answer : ReplyMsg)
        → t.network ≡ handled_network
        → waiting r l n s ≡ waiting true rn.long_reordering servername server
        → answer ≡ reply
        → t.handler ≡ returned server reply
        → OnTheWay (record t { progress = finish drops delays req r l n s answer t.network })
    finishes-OnTheWay t drops delays r l n s answer at w e back =
        let (r≡, l≡, n≡, s≡) = same_waiting w in
        let same : finish drops delays req r l n s answer t.network
            ≡ finish drops delays req true rn.long_reordering servername server reply
                handled_network =
          cc in
        subst (λ p. OnTheWay (record t { progress = p })) (sym same)
          (finish_alive req (λ p. OnTheWay (record t { progress = p })) drops delays
            rn.long_reordering servername server reply handled_network alive_after
            (late at refl back) (told at refl back))

    executes-OnTheWay :
        (t : Trip S) (s : ℕ) (rn' : Network S) (answer : ReplyMsg)
        → t.network ≡ rn
        → t.progress ≡ waiting true rn.long_reordering servername server
        → calls s ≡ calls server
        → execute req s t.network ≡ some (rn', answer)
        → OnTheWay (record t {
          network = rn';
          handler = returned s answer;
          executions = (s, answer) ∷ t.executions;
        })
    executes-OnTheWay t s rn' answer at waits c run =
        let s≡ = same_call c in
        let same : (rn', answer) ≡ (handled_network, reply) =
          some-injective (sym run ∙ ap₂ (execute req) s≡ at ∙ ran) in
        served (ap (λ p. p.0) same) waits (ap₂ returned s≡ (ap (λ p. p.1) same))

    step-OnTheWay :
        (t t' : Trip S) (step : Step req t t') → IsOwn req step → OnTheWay t → OnTheWay t'
    step-OnTheWay t t' (elsewhere rn') own o = absurd own
    step-OnTheWay t t' (begins drops e) own (came n p h) = begins-OnTheWay t drops n
    step-OnTheWay t t' (begins drops e) own (asked n p h) = cc
    step-OnTheWay t t' (begins drops e) own (served n p h) = cc
    step-OnTheWay t t' (begins drops e) own (late n p h) = cc
    step-OnTheWay t t' (begins drops e) own (told n p h) = cc
    step-OnTheWay t t' (executes s rn' answer e run) own (came n p h) = cc
    step-OnTheWay t t' (executes s rn' answer e run) own (asked n p h) =
        executes-OnTheWay t s rn' answer n p (sym e ∙ h) run
    step-OnTheWay t t' (executes s rn' answer e run) own (served n p h) = cc
    step-OnTheWay t t' (executes s rn' answer e run) own (late n p h) = cc
    step-OnTheWay t t' (executes s rn' answer e run) own (told n p h) = cc
    step-OnTheWay t t' (gives_up r l m s e dead) own (came n p h) = cc
    step-OnTheWay t t' (gives_up r l m s e dead) own (asked n p h) =
        absurd (not_dead t r l m s n (sym e ∙ p) dead alive_before)
    step-OnTheWay t t' (gives_up r l m s e dead) own (served n p h) =
        absurd (not_dead t r l m s n (sym e ∙ p) dead alive_after)
    step-OnTheWay t t' (gives_up r l m s e dead) own (late n p h) = cc
    step-OnTheWay t t' (gives_up r l m s e dead) own (told n p h) = cc
    step-OnTheWay t t' (finishes drops delays r l m s address answer e back) own (came n p h) = cc
    step-OnTheWay t t' (finishes drops delays r l m s address answer e back) own (asked n p h) = cc
    step-OnTheWay t t' (finishes drops delays r l m s address answer e back) own (served n p h) =
        finishes-OnTheWay t drops delays r l m s answer n (sym e ∙ p)
          (same_returned (sym back ∙ h)).1 h
    step-OnTheWay t t' (finishes drops delays r l m s address answer e back) own (late n p h) = cc
    step-OnTheWay t t' (finishes drops delays r l m s address answer e back) own (told n p h) = cc
    step-OnTheWay t t' (sends answer e) own (came n p h) = cc
    step-OnTheWay t t' (sends answer e) own (asked n p h) = cc
    step-OnTheWay t t' (sends answer e) own (served n p h) = cc
    step-OnTheWay t t' (sends answer e) own (late n p h) =
        told n (ap answered (delayed-injective (sym e ∙ p))) h
    step-OnTheWay t t' (sends answer e) own (told n p h) = cc

    Alone-OnTheWay :
        (t : Trip S) (steps : Steps req (start req rn) t) → Alone req steps → OnTheWay t
    Alone-OnTheWay t stays alone = came refl refl refl
    Alone-OnTheWay t (then_step {t'} steps step) (alone, own) =
        step-OnTheWay t' t step own (Alone-OnTheWay t' steps alone)

    after : {t t' : Trip S} (step : Step req t t') → IsOwn req step → Ends t' → Ends t
    after step own (t'', more, alone, says, at) =
        (t'', first_step req step more, first_step-Alone req step more own alone, says, at)

    -- From each of these points the run goes on to the reply.
    told-Ends : (t : Trip S) → t.network ≡ handled_network → t.progress ≡ answered reply → Ends t
    told-Ends t n p = (t, stays, tt, p, n)

    sent :
        finish false false req true rn.long_reordering servername server reply handled_network
        ≡ answered reply
    unfolding finish
    sent = rw alive_after (ground arith)

    served-Ends :
        (t : Trip S)
        → t.network ≡ handled_network
        → t.progress ≡ waiting true rn.long_reordering servername server
        → t.handler ≡ returned server reply
        → Ends t
    served-Ends t n p h =
        after (finishes false false true rn.long_reordering servername server server reply p h) tt (
          told-Ends _ n
            (ap (finish false false req true rn.long_reordering servername server reply) n ∙ sent))

    asked-Ends :
        (t : Trip S)
        → t.network ≡ rn
        → t.progress ≡ waiting true rn.long_reordering servername server
        → t.handler ≡ calls server
        → Ends t
    asked-Ends t n p h =
        after (executes server handled_network reply h (ap (execute req server) n ∙ ran)) tt
          (served-Ends _ refl p refl)

    OnTheWay-Ends : (t : Trip S) → OnTheWay t → Ends t
    OnTheWay-Ends t (came n p h) =
        let began =
          ap (begin false req) n ∙ begin_reached req false rn servername server reached reliable in
        after (begins false p) tt (asked-Ends _ n (ap (λ q. q.0) began) (ap (λ q. q.1) began))
    OnTheWay-Ends t (asked n p h) = asked-Ends t n p h
    OnTheWay-Ends t (served n p h) = served-Ends t n p h
    OnTheWay-Ends t (late n p h) = after (sends reply p) tt (told-Ends _ n refl)
    OnTheWay-Ends t (told n p h) = told-Ends t n p

    OnTheWay-answered :
        (t : Trip S) (answer : ReplyMsg)
        → OnTheWay t
        → t.progress ≡ answered answer
        → (answer ≡ reply) × (t.network ≡ handled_network)
    OnTheWay-answered t answer (came n p h) e = cc
    OnTheWay-answered t answer (asked n p h) e = cc
    OnTheWay-answered t answer (served n p h) e = cc
    OnTheWay-answered t answer (late n p h) e = cc
    OnTheWay-answered t answer (told n p h) e = (answered-injective (sym e ∙ p), n)

    -- On a reliable network, a request comes from an enabled end that is connected to a server
    -- which handles it, and no step but its own happens. However the coins fall: it is never
    -- answered with anything but the handler's reply, and when it is answered, the server's new
    -- state, with the request counted, is stored; and from wherever it is, steps of its own take it
    -- to that answer.
    pub quiet_request :
        (t : Trip S) (steps : Steps req (start req rn) t)
        → Alone req steps
        → ((answer : ReplyMsg)
            → t.progress ≡ answered answer
            → (answer ≡ reply) × (t.network ≡ handled_network))
          × Ends t
          × (rs'.count ≡ rs.count + 1)
    quiet_request t steps alone =
        let o = Alone-OnTheWay t steps alone in
        (
          λ answer. OnTheWay-answered t answer o,
          OnTheWay-Ends t o,
          dispatch-count req rs rs' reply handled,
        )
