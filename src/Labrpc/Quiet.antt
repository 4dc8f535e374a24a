-- ===== src/Labrpc/Quiet.antt =====
-- A request that reaches its server: the parts of processReq of src/labrpc/labrpc.go.
use model_lib.Labrpc.{
  at_key, at_name, Service, Server, ReqMsg, ReplyMsg, split_last_dot, Dispatched, replies,
  slice_out_of_range, unknown_service, unknown_method, service_dispatch, in_server, to_method,
  to_service, server_dispatch,
}
use model_lib.Labrpc.Network.{
  Network, read_endname_info, is_server_dead, Progress, waiting, delayed, answered, calls, begin,
  execute, finish,
}
use model_lib.Prelude.{
  ℕ, ◌+◌, ◌≡◌, Bool, true, false, ◌&&◌, Option, none, some, List, arith, if_cases, get_elem?, set,
}
use mathlib.Core.Option

module _ {S : Type 0} (req : ReqMsg) where
  -- The end is enabled and connected to a name that stands for the server at the address.
  pub record Reaches (rn : Network S) (servername server : ℕ) : Type 0 where
    pub enabled : at_key req.endname rn.enabled ≡ some true
    pub connected : at_key req.endname rn.connections ≡ some (some servername)
    pub served : at_key servername rn.servers ≡ some (some server)

  pub begin_reached :
      (drops : Bool) (rn : Network S) (servername server : ℕ)
      → Reaches rn servername server
      → rn.reliable ≡ true
      → begin drops req rn ≡ (waiting true rn.long_reordering servername server, calls server)
  unfolding begin read_endname_info
  begin_reached drops rn servername server r reliable =
      rw (r.enabled, r.connected, r.served, reliable)

  pub reached_alive :
      (rn : Network S) (servername server : ℕ)
      → Reaches rn servername server
      → is_server_dead req.endname servername server rn ≡ false
  unfolding is_server_dead
  reached_alive rn servername server r = rw (r.enabled, r.served) (ground arith)

  -- On a reliable network the reply of a server that is alive is sent, or will be.
  pub finish_alive {κ} :
      (P : Progress → Type κ) (drops delays long_reordering : Bool) (servername server : ℕ)
      (reply : ReplyMsg) (rn : Network S)
      → is_server_dead req.endname servername server rn ≡ false
      → P (delayed reply)
      → P (answered reply)
      → P (finish drops delays req true long_reordering servername server reply rn)
  unfolding finish
  finish_alive P drops delays long_reordering servername server reply rn alive late now =
      rw alive (if_cases P (long_reordering && delays) _ _ (λ _. late) (λ _. now))

  pub execute_lem :
      (rn : Network S) (server : ℕ) (rs rs' : Server S) (reply : ReplyMsg)
      → get_elem? rn.store server ≡ some rs
      → server_dispatch req rs ≡ replies rs' reply
      → execute req server rn ≡ some (record rn { store = set rn.store server rs' }, reply)
  unfolding execute mathlib.Core.Option.bind
  execute_lem rn server rs rs' reply found handled = rw (found, handled)

  in_server-count :
      (rs rs' : Server S) (name : List ℕ) (d : Dispatched (Service S)) (reply : ReplyMsg)
      → in_server rs name d ≡ replies rs' reply
      → rs'.count ≡ rs.count
  in_server-count rs rs' name (replies svc answer) reply e = cc
  in_server-count rs rs' name slice_out_of_range reply e = cc
  in_server-count rs rs' name unknown_service reply e = cc
  in_server-count rs rs' name unknown_method reply e = cc

  to_method-count :
      (rs rs' : Server S) (service method : List ℕ) (svc : Option (Service S)) (reply : ReplyMsg)
      → to_method req rs service method svc ≡ replies rs' reply
      → rs'.count ≡ rs.count
  to_method-count rs rs' service method none reply e = cc
  to_method-count rs rs' service method (some svc) reply e =
      in_server-count rs rs' service (service_dispatch method req svc) reply e

  to_service-count :
      (rs rs' : Server S) (split : Option (List ℕ × List ℕ)) (reply : ReplyMsg)
      → to_service req rs split ≡ replies rs' reply
      → rs'.count ≡ rs.count
  to_service-count rs rs' none reply e = cc
  to_service-count rs rs' (some (service, method)) reply e =
      to_method-count rs rs' service method (at_name service rs.services) reply e

  pub dispatch-count :
      (rs rs' : Server S) (reply : ReplyMsg)
      → server_dispatch req rs ≡ replies rs' reply
      → rs'.count ≡ rs.count + 1
  unfolding server_dispatch
  dispatch-count rs rs' reply e = to_service-count _ rs' (split_last_dot req.svc_meth) reply e
