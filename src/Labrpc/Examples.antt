-- ===== src/Labrpc/Examples.antt =====
-- A network of one end and one server, whose service counts its calls and echoes their arguments.
use model_lib.Labrpc.{
  Method, MethodType, Service, Server, ReqMsg, ReplyMsg, failed, is_handler, make_service,
  make_server, add_service, split_last_dot, replies, service_dispatch, server_dispatch,
}
use model_lib.Labrpc.Answer.{answer-Executed, WasAlive, answer-alive}
use model_lib.Labrpc.Counting.{requests, total_count-bounds}
use model_lib.Labrpc.Network.{
  Network, make_network, make_end, add_server, delete_server, connect, enable, get_total_count,
  read_endname_info, is_server_dead, waiting, answered, calls, returned, begin, execute, finish,
}
use model_lib.Labrpc.Quiet.{Reaches}
use model_lib.Labrpc.Trip.{
  Trip, Step, elsewhere, begins, executes, gives_up, finishes, Steps, stays, then_step, start, Told,
}
use model_lib.Labrpc.Undisturbed.{Ends, quiet_request}
use model_lib.Prelude.{
  ℕ, ◌+◌, ◌^◌, ◌≤◌, ◌<◌, ◌≡◌, refl, ◌≢◌, ◌⊎◌, true, false, none, some, [], ◌∷◌, arith, length,
}
use model_lib.Prelude.Int.{pos, ◌<ℤ◌}
use mathlib.Core.Option

abbrev echo : Method ℕ
echo calls_so_far args = (calls_so_far + 1, args)

abbrev handler_type : MethodType
handler_type = record { pkg_path = []; num_in = 3; in_2_is_ptr = true; num_out = 0 }

-- "R" and "R.e"
abbrev echo_service : Service ℕ
echo_service = make_service (b'R' ∷ []) 0 ((b'e' ∷ [], handler_type, echo) ∷ [])

abbrev echo_server : Server ℕ
echo_server = add_service echo_service make_server

abbrev echo_req : ReqMsg
echo_req = record { endname = 7; svc_meth = b'R' ∷ b'.' ∷ b'e' ∷ []; args = 1 ∷ 2 ∷ [] }

abbrev echo_reply : ReplyMsg
echo_reply = record { ok = true; reply = 1 ∷ 2 ∷ [] }

abbrev with_end : Network ℕ
with_end = record make_network {
  ends = (7, 7) ∷ [];
  enabled = (7, false) ∷ [];
  connections = (7, none) ∷ [];
  store = echo_server ∷ [];
}

abbrev echo_network : Network ℕ
echo_network = enable 7 true (connect 7 4 (add_server 4 0 with_end))

-- The end is made as MakeEnd makes it.
with_end_made : make_end 7 (record make_network { store = echo_server ∷ [] }) ≡ some with_end
unfolding make_end make_network
with_end_made = refl

echo_network-Reaches : Reaches echo_req echo_network 4 0
unfolding enable connect add_server make_network
echo_network-Reaches = record { enabled = refl; connected = refl; served = refl }

abbrev counted_server : Server ℕ
counted_server = record {
  services = (b'R' ∷ [], record echo_service { rcvr = 1 }) ∷ echo_server.services;
  count = 1;
}

echo_handled : server_dispatch echo_req echo_server ≡ replies counted_server echo_reply
unfolding server_dispatch service_dispatch split_last_dot make_service add_service make_server
    is_handler
echo_handled = refl

-- The server is deleted while the handler runs, and the caller is told of a failure.
abbrev echoing : Trip ℕ
echoing = record {
  network = echo_network;
  progress = waiting true false 4 0;
  handler = calls 0;
  executions = [];
}

echoing-Steps : Steps echo_req (start echo_req echo_network) echoing
unfolding begin read_endname_info enable connect add_server make_network
echoing-Steps = then_step stays (begins false refl)

abbrev echoed_network : Network ℕ
echoed_network = record echo_network { store = counted_server ∷ [] }

abbrev echoed : Trip ℕ
echoed = record {
  network = echoed_network;
  progress = waiting true false 4 0;
  handler = returned 0 echo_reply;
  executions = (0, echo_reply) ∷ [];
}

echo_executed : execute echo_req 0 echo_network ≡ some (echoed_network, echo_reply)
unfolding execute mathlib.Core.Option.bind server_dispatch service_dispatch split_last_dot
    make_service add_service make_server is_handler enable connect add_server make_network
echo_executed = refl

echoed-Steps : Steps echo_req (start echo_req echo_network) echoed
echoed-Steps = then_step echoing-Steps (executes 0 echoed_network echo_reply refl echo_executed)

abbrev deleted : Trip ℕ
deleted = record echoed { network = delete_server 4 echoed_network; progress = answered failed }

deleted-Steps : Steps echo_req (start echo_req echo_network) deleted
unfolding delete_server is_server_dead enable connect add_server make_network
deleted-Steps =
    then_step (then_step echoed-Steps (elsewhere (delete_server 4 echoed_network)))
      (gives_up true false 4 0 refl refl)

answer-Executed_example : (length deleted.executions ≤ 1) × Told deleted.progress deleted.executions
answer-Executed_example = answer-Executed echo_req echo_network deleted deleted-Steps

abbrev told_echo : Trip ℕ
told_echo = record echoed { progress = answered echo_reply }

echo_told : Step echo_req echoed told_echo
unfolding finish is_server_dead enable connect add_server make_network
echo_told = finishes false false true false 4 0 0 echo_reply refl refl

echoed_once : Steps echo_req (start echo_req echo_network) told_echo
echoed_once = then_step echoed-Steps echo_told

echo_not_failed : echo_reply ≢ failed
echo_not_failed e = cc

answer-alive_example : WasAlive echo_req (start echo_req echo_network) told_echo echo_reply
answer-alive_example =
    answer-alive echo_req echo_network told_echo echo_reply echoed_once refl echo_not_failed

quiet_request_example :
    ((answer : ReplyMsg)
      → echoed.progress ≡ answered answer
      → (answer ≡ echo_reply) × (echoed.network ≡ echoed_network))
    × Ends echo_req echo_network 4 0 counted_server echo_reply echoed
    × (counted_server.count ≡ echo_server.count + 1)
unfolding enable connect add_server make_network echoed-Steps echoing-Steps
quiet_request_example =
    quiet_request echo_req echo_network 4 0 counted_server echo_reply echo_server
      echo_network-Reaches refl refl echo_handled echoed echoed-Steps ((tt, tt), tt)

total_count-bounds_example :
    ((3 < 2 ^ 31) × (get_total_count (requests ℕ 3) ≡ pos 3))
    ⊎ ((2 ^ 31 ≤ 3) × (get_total_count (requests ℕ 3) <ℤ pos 0))
total_count-bounds_example = total_count-bounds ℕ 3 (omega arith)
