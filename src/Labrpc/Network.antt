-- ===== src/Labrpc/Network.antt =====
-- The tables of the network, and what it does with one request: type Network, readEndnameInfo,
-- isServerDead and processReq of src/labrpc/labrpc.go.
use model_lib.Labrpc.{
  at_key, Server, ReqMsg, ReplyMsg, failed, Dispatched, replies, slice_out_of_range,
  unknown_service, unknown_method, server_dispatch,
}
use model_lib.Prelude.{
  ℕ, ◌+◌, ◌-◌, ◌%◌, ◌^◌, Bool, true, false, not, ◌&&◌, ◌||◌, Option, none, some, List, [], ◌∷◌, ltb,
  ◌==◌, if◌then◌else◌, get_elem?, set,
}
use model_lib.Prelude.Int.{ℤ, pos, negsuc}
use mathlib.Core.Option

-- A server name of `none` is Go's nil, and so is a server.
pub record Network (S : Type 0) : Type 0 where
  pub reliable : Bool
  pub long_delays : Bool
  pub long_reordering : Bool
  pub ends : List (ℕ × ℕ)
  pub enabled : List (ℕ × Bool)
  pub servers : List (ℕ × Option ℕ)
  pub connections : List (ℕ × Option ℕ)
  pub store : List (Server S)
  -- The bits of an int32.
  pub count : ℕ

abbrev pub or_false : Option Bool → Bool
or_false none = false
or_false (some b) = b

abbrev pub or_nil : {A : Type 0} → Option (Option A) → Option A
or_nil none = none
or_nil (some a) = a

-- Equality of two server pointers, one of which is not nil.
abbrev pub is_server : Option ℕ → ℕ → Bool
is_server none server = false
is_server (some s) server = s == server

module _ {S : Type 0} where
  unfoldable pub make_network : Network S
  make_network = record {
    reliable = true;
    long_delays = false;
    long_reordering = false;
    ends = [];
    enabled = [];
    servers = [];
    connections = [];
    store = [];
    count = 0;
  }

  pub set_reliable : Bool → Network S → Network S
  set_reliable b rn = record rn { reliable = b }

  pub set_long_reordering : Bool → Network S → Network S
  set_long_reordering b rn = record rn { long_reordering = b }

  pub set_long_delays : Bool → Network S → Network S
  set_long_delays b rn = record rn { long_delays = b }

  -- `none`: the name is taken, and the process ends.
  unfoldable pub make_end : ℕ → Network S → Option (Network S)
  make_end endname rn = elim (at_key endname rn.ends) [
    | some e ↦ none
    | none ↦ some (record rn {
      ends = (endname, endname) ∷ rn.ends;
      enabled = (endname, false) ∷ rn.enabled;
      connections = (endname, none) ∷ rn.connections;
    })
  ]

  unfoldable pub add_server : ℕ → ℕ → Network S → Network S
  add_server servername server rn = record rn { servers = (servername, some server) ∷ rn.servers }

  unfoldable pub delete_server : ℕ → Network S → Network S
  delete_server servername rn = record rn { servers = (servername, none) ∷ rn.servers }

  unfoldable pub connect : ℕ → ℕ → Network S → Network S
  connect endname servername rn = record rn {
    connections = (endname, some servername) ∷ rn.connections;
  }

  unfoldable pub enable : ℕ → Bool → Network S → Network S
  enable endname enabled rn = record rn { enabled = (endname, enabled) ∷ rn.enabled }

  -- GetCount: `none` is the nil pointer of a server that is not there.
  pub get_count : ℕ → Network S → Option ℕ
  get_count servername rn =
      Option.bind (or_nil (at_key servername rn.servers))
        (λ server. Option.map (λ (rs : Server S). rs.count) (get_elem? rn.store server))

  -- atomic.AddInt32(&rn.count, 1)
  unfoldable pub count_request : Network S → Network S
  count_request rn = record rn { count = (rn.count + 1) % 2 ^ 32 }

  -- GetTotalCount: the int32 as an int.
  unfoldable pub get_total_count : Network S → ℤ
  get_total_count rn =
      if ltb rn.count (2 ^ 31) then pos rn.count else negsuc (2 ^ 32 - 1 - rn.count)

  abbrev pub server_at : Network S → Option ℕ → Option ℕ
  server_at rn none = none
  server_at rn (some servername) = or_nil (at_key servername rn.servers)

  -- (enabled, servername, server, reliable, longreordering)
  unfoldable pub read_endname_info : ℕ → Network S → Bool × Option ℕ × Option ℕ × Bool × Bool
  read_endname_info endname rn =
      let servername = or_nil (at_key endname rn.connections) in
      (
        or_false (at_key endname rn.enabled),
        servername,
        server_at rn servername,
        rn.reliable,
        rn.long_reordering,
      )

  unfoldable pub is_server_dead : ℕ → ℕ → ℕ → Network S → Bool
  is_server_dead endname servername server rn =
      not (or_false (at_key endname rn.enabled))
      || not (is_server (or_nil (at_key servername rn.servers)) server)

-- Where the goroutine of processReq is: before readEndnameInfo; waiting for the handler, with
-- `reliable`, `longreordering`, the server's name and the server; ended with a timer that will send
-- the answer; or past the sending of an answer to the caller.
pub data Progress : Type 0 where
  arrived : Progress
  waiting : Bool → Bool → ℕ → ℕ → Progress
  delayed : ReplyMsg → Progress
  answered : ReplyMsg → Progress

-- Where the goroutine that calls the handler is.
pub data Handler : Type 0 where
  not_called : Handler
  calls : ℕ → Handler
  returned : ℕ → ReplyMsg → Handler

-- The first part: the request goes to a server, is lost, or finds none and is answered later. `drops`: the coin of an unreliable
-- network falls on a loss.
abbrev pub admit : Bool → Bool → Option ℕ → Option ℕ → Bool → Bool → Progress × Handler
admit drops true (some servername) (some server) reliable long_reordering =
    if not reliable && drops
    then (answered failed, not_called)
    else (waiting reliable long_reordering servername server, calls server)
admit drops true (some servername) none reliable long_reordering = (delayed failed, not_called)
admit drops true none server reliable long_reordering = (delayed failed, not_called)
admit drops false servername server reliable long_reordering = (delayed failed, not_called)

module _ {S : Type 0} where
  unfoldable pub begin : Bool → ReqMsg → Network S → Progress × Handler
  begin drops req rn =
      let (enabled, servername, server, reliable, long_reordering) =
        read_endname_info req.endname rn in
      admit drops enabled servername server reliable long_reordering

  -- The handler's goroutine: the server's lock is held for the count; the process may end instead.
  abbrev pub stored : Network S → ℕ → Dispatched (Server S) → Option (Network S × ReplyMsg)
  stored rn server (replies rs reply) = some (record rn { store = set rn.store server rs }, reply)
  stored rn server slice_out_of_range = none
  stored rn server unknown_service = none
  stored rn server unknown_method = none

  unfoldable pub execute : ReqMsg → ℕ → Network S → Option (Network S × ReplyMsg)
  execute req server rn =
      Option.bind (get_elem? rn.store server) (λ rs. stored rn server (server_dispatch req rs))

  -- The last part, once the handler has returned: the server may be gone, and the reply may be lost,
  -- or delayed. `delays`: the coin of a reordering network falls on a delay.
  unfoldable pub finish :
      Bool → Bool → ReqMsg → Bool → Bool → ℕ → ℕ → ReplyMsg → Network S → Progress
  finish drops delays req reliable long_reordering servername server reply rn =
      if is_server_dead req.endname servername server rn
      then answered failed
      else if not reliable && drops
      then answered failed
      else if long_reordering && delays
      then delayed reply
      else answered reply

-- Call's use of what comes back, with the decoder of src/labgob: (the result of Call, the reply).
pub data Called {ℓ} (R : Type ℓ) : Type ℓ where
  returns : Bool → Option R → Called R
  cannot_decode : Called R

unfoldable pub call_result {ℓ} : {R : Type ℓ} → (List ℕ → Option R) → ReplyMsg → Called R
call_result decode rep =
    if rep.ok
    then elim (decode rep.reply) [ some r ↦ returns true (some r) | none ↦ cannot_decode ]
    else returns false none
