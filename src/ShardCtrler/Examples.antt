-- ===== src/ShardCtrler/Examples.antt =====
-- A clerk of three controllers, of which server 1 leads from round 1 on.
use model_lib.Prelude.{
  ℕ, ◌≤◌, ◌<◌, ◌≡◌, refl, Bool, false, not, ◌&&◌, Option, none, some, [], arith, leb, ◌==◌,
  if◌then◌else◌,
}
use model_lib.Prelude.Int.{pos, minus_one}
use model_lib.ShardCtrler.{
  Config, JoinArgs, JoinReply, LeaveArgs, LeaveReply, MoveArgs, MoveReply, QueryArgs, QueryReply,
  CtrlClerk, make_ctrl_clerk, query,
}
use model_lib.ShardCtrler.Rounds.{query-returns}

abbrev ctrl_clerk : CtrlClerk
ctrl_clerk = make_ctrl_clerk 3

abbrev some_config : Config
some_config = record { num = pos 4; shards = []; groups = [] }

abbrev led : ℕ → ℕ → Bool
led round s = leb 1 round && s == 1

abbrev led_query : ℕ → ℕ → QueryArgs → Option QueryReply
led_query round s args =
    some (record { wrong_leader = not (led round s); err = []; config = some_config })

query-returns_example :
    (config : Config) × (at : ℕ) × (s' : ℕ) × (reply' : QueryReply) × (query led_query 2 minus_one
        ctrl_clerk
      ≡ some config)
    × (at ≤ 1)
    × (s' < 3)
    × (led_query at s' (record { num = minus_one }) ≡ some reply')
    × (reply'.wrong_leader ≡ false)
    × (reply'.config ≡ config)
unfolding make_ctrl_clerk
query-returns_example =
    query-returns led_query 1 1 minus_one ctrl_clerk
      (record { wrong_leader = false; err = []; config = some_config }) (omega arith) refl refl

abbrev led_join : ℕ → ℕ → JoinArgs → Option JoinReply
led_join round s args =
    if led round s then some (record { wrong_leader = false; err = [] }) else none

abbrev led_leave : ℕ → ℕ → LeaveArgs → Option LeaveReply
led_leave round s args =
    if led round s then some (record { wrong_leader = false; err = [] }) else none

abbrev led_move : ℕ → ℕ → MoveArgs → Option MoveReply
led_move round s args =
    if led round s then some (record { wrong_leader = false; err = [] }) else none
