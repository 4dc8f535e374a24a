-- ===== src/Labrpc/Trip.antt =====
-- One request in a network that changes: processReq of src/labrpc/labrpc.go as steps.
use model_lib.Labrpc.{ReqMsg, ReplyMsg, failed}
use model_lib.Labrpc.Network.{
  Network, is_server_dead, Progress, arrived, waiting, delayed, answered, Handler, not_called,
  calls, returned, admit, begin, execute, finish,
}
use model_lib.Prelude.{
  ℕ, ◌≡◌, refl, sym, ap, ◌∙◌, ◌⊎◌, inl, inr, Bool, true, false, not, ◌&&◌, Option, none, some, List,
  [], ◌∷◌, if_cases,
}

pub record Trip (S : Type 0) : Type 0 where
  pub network : Network S
  pub progress : Progress
  pub handler : Handler
  pub executions : List (ℕ × ReplyMsg)

module _ {S : Type 0} (req : ReqMsg) where
  -- Other requests, other goroutines of the network and its user may change all of the network
  -- between two steps.
  pub data Step (t : Trip S) : Trip S → Type 0 where
    elsewhere : (rn : Network S) → Step t (record t { network = rn })
    begins :
        (drops : Bool)
        → t.progress ≡ arrived
        → Step t (record t {
          progress = (begin drops req t.network).0;
          handler = (begin drops req t.network).1;
        })
    executes :
        (server : ℕ) (rn : Network S) (reply : ReplyMsg)
        → t.handler ≡ calls server
        → execute req server t.network ≡ some (rn, reply)
        → Step t (record t {
          network = rn;
          handler = returned server reply;
          executions = (server, reply) ∷ t.executions;
        })
    gives_up :
        (reliable long_reordering : Bool) (servername server : ℕ)
        → t.progress ≡ waiting reliable long_reordering servername server
        → is_server_dead req.endname servername server t.network ≡ true
        → Step t (record t { progress = answered failed })
    finishes :
        (drops delays reliable long_reordering : Bool) (servername server at : ℕ) (reply : ReplyMsg)
        → t.progress ≡ waiting reliable long_reordering servername server
        → t.handler ≡ returned at reply
        → Step t (record t {
          progress =
              finish drops delays req reliable long_reordering servername server reply t.network;
        })
    -- The timer of a delayed answer fires.
    sends :
        (reply : ReplyMsg)
        → t.progress ≡ delayed reply
        → Step t (record t { progress = answered reply })

  pub data Steps (t : Trip S) : Trip S → Type 0 where
    stays : Steps t t
    then_step : {t' t'' : Trip S} → Steps t t' → Step t' t'' → Steps t t''

  -- The request has just come in.
  abbrev pub start : Network S → Trip S
  start rn = record { network = rn; progress = arrived; handler = not_called; executions = [] }

-- What holds at every point of a trip.
abbrev pub Executed : Handler → List (ℕ × ReplyMsg) → Type 0
Executed not_called executions = executions ≡ []
Executed (calls server) executions = executions ≡ []
Executed (returned server reply) executions = executions ≡ (server, reply) ∷ []

abbrev pub Settled : Progress → Handler → Type 0
Settled arrived handler = handler ≡ not_called
Settled (waiting reliable long_reordering servername server) handler =
    (handler ≡ calls server) ⊎ ((reply : ReplyMsg) × (handler ≡ returned server reply))
Settled (delayed answer) handler =
    (answer ≡ failed) ⊎ ((server : ℕ) × (handler ≡ returned server answer))
Settled (answered answer) handler =
    (answer ≡ failed) ⊎ ((server : ℕ) × (handler ≡ returned server answer))

pub admit-Settled :
    (drops enabled : Bool) (servername server : Option ℕ) (reliable long_reordering : Bool)
    → let (progress, handler) = admit drops enabled servername server reliable long_reordering in
      Executed handler [] × Settled progress handler
admit-Settled drops true (some servername) (some server) reliable long_reordering =
    if_cases (λ (r : Progress × Handler). Executed r.1 [] × Settled r.0 r.1) (not reliable && drops)
      _ _ (λ _. (refl, inl refl)) (λ _. (refl, inl refl))
admit-Settled drops true (some servername) none reliable long_reordering = (refl, inl refl)
admit-Settled drops true none server reliable long_reordering = (refl, inl refl)
admit-Settled drops false servername server reliable long_reordering = (refl, inl refl)

-- What an answer, sent or delayed, says of the handler.
abbrev pub Told : Progress → List (ℕ × ReplyMsg) → Type 0
Told arrived executions = Unit {0}
Told (waiting reliable long_reordering servername server) executions = Unit {0}
Told (delayed answer) executions =
    (answer ≡ failed) ⊎ ((server : ℕ) × (executions ≡ (server, answer) ∷ []))
Told (answered answer) executions =
    (answer ≡ failed) ⊎ ((server : ℕ) × (executions ≡ (server, answer) ∷ []))

pub answered-injective : {a b : ReplyMsg} → answered a ≡ answered b → a ≡ b
answered-injective e = cc

pub delayed-injective : {a b : ReplyMsg} → delayed a ≡ delayed b → a ≡ b
delayed-injective e = cc

-- The handler's goroutine serves the server that the trip waits for.
pub waited_for :
    (reliable long_reordering : Bool) (servername server address : ℕ) (handler : Handler)
    (reply : ReplyMsg)
    → Settled (waiting reliable long_reordering servername server) handler
    → handler ≡ returned address reply
    → handler ≡ returned server reply
waited_for reliable long_reordering servername server address handler reply (inl e) back = cc
waited_for reliable long_reordering servername server address handler reply (inr (r, e)) back =
    let same_reply : r ≡ reply = returned-injective (sym e ∙ back) in
    e ∙ ap (returned server) same_reply
  where
    returned-injective : {m n : ℕ} {a b : ReplyMsg} → returned m a ≡ returned n b → a ≡ b
    returned-injective e = cc

-- The handler returns while the trip is wherever it may be.
pub executed_Settled :
    (server : ℕ) (reply : ReplyMsg) (progress : Progress)
    → Settled progress (calls server)
    → Settled progress (returned server reply)
executed_Settled server reply arrived h = cc
executed_Settled server reply (waiting reliable long_reordering servername s) (inl e) =
    inr (reply, ap (λ x. returned x reply) (calls-injective e))
  where
    calls-injective : {a b : ℕ} → calls a ≡ calls b → a ≡ b
    calls-injective e = cc
executed_Settled server reply (waiting reliable long_reordering servername s) (inr (r, e)) = cc
executed_Settled server reply (delayed answer) (inl e) = inl e
executed_Settled server reply (delayed answer) (inr (s, e)) = cc
executed_Settled server reply (answered answer) (inl e) = inl e
executed_Settled server reply (answered answer) (inr (s, e)) = cc
