-- ===== src/Raft/CatchUp.antt =====
-- A leader and a lagging follower, round by round: the requests of leaderSendAppendEntriesRPC, the
-- follower's answers and what the leader makes of them (src/raft/appendEntriesRPC.go).
pub mod Entries
pub mod Agree
pub mod Refusal
pub mod Back
pub mod Rounds
pub mod Crash
pub mod Snapshots
use model_lib.Prelude.{ℕ, suc, ◌≡◌, true, false, All}
use model_lib.Prelude.Go.{ok, get}
use model_lib.Prelude.Int.{ℤ, pos, minus_one, ◌≤ℤ◌, inc}
use model_lib.Raft.Append.{append_entries_request_handler, append_entries_response_handler}
use model_lib.Raft.FollowerLog.Safety.{Replicated}
use model_lib.Raft.LeaderLog.{append_entries, install_snapshot, request_for}
use model_lib.Raft.LeaderLog.Asks.{snapshot_args}
use model_lib.Raft.Log.Contiguous.{last_index}
use model_lib.Raft.Persist.{Gob}
use model_lib.Raft.State.{Raft, AppendEntriesArgs, AppendEntriesReply, zero_append_reply}
use model_lib.Raft.WellFormed.{IsWellFormed, Agrees}

module _ {C : Type 0} where
  -- A leader and a follower of no higher term that the leader has `n` as the next index of: no
  -- committed entry of the follower contradicts the leader's log or the end of its snapshot, and
  -- only a follower without a snapshot is sent the log from its very start.
  pub record Together (led followed : Raft C) (n : ℤ) : Type 0 where
    pub leads : IsWellFormed led
    pub follows : IsWellFormed followed
    pub newer : followed.current_term ≤ℤ led.current_term
    pub next : get led.next_index followed.me ≡ ok n
    pub slot : (m : ℤ) × (get led.match_index followed.me ≡ ok m)
    pub low : pos 0 ≤ℤ n
    pub reaches : n ≤ℤ inc (last_index led.snapshot_index led.log)
    pub start : n ≡ pos 0 → followed.snapshot_index ≡ minus_one
    pub agree : Agrees followed.commit_index followed.log led.log
    pub agree_base :
        All
          (λ x.
            x.index ≡ led.snapshot_index
            → x.index ≤ℤ followed.commit_index
            → x.term ≡ led.snapshot_term)
          followed.log

module _ {C : Type 0} ⦃g : Gob C⦄ where
  -- One round: the leader's request carries entries, the follower answers it at time `now`, and the
  -- leader handles the answer.
  pub record Round (now : ℤ) (led followed led' followed' : Raft C) (args : AppendEntriesArgs C)
      (reply : AppendEntriesReply) : Type 0 where
    pub asks : request_for led followed.me ≡ ok (append_entries args)
    pub answers :
        append_entries_request_handler now followed args zero_append_reply ≡ ok (followed', reply)
    pub handles : append_entries_response_handler led args reply ≡ ok led'
    pub same_log : led'.log ≡ led.log

  -- A round that succeeds. Each entry that was sent then lies inside the follower's snapshot or is
  -- at its place in the follower's log, but that an entry that the log had before with the same
  -- index and term stays in its place, whatever its command. The leader knows that its last index
  -- is reached.
  pub record UpToDate (now : ℤ) (led followed : Raft C) : Type 0 where
    pub led' : Raft C
    pub followed' : Raft C
    pub args : AppendEntriesArgs C
    pub reply : AppendEntriesReply
    pub round : Round now led followed led' followed' args reply
    pub success : reply.success ≡ true
    pub replicated : Replicated followed.log followed' args
    pub reached : get led'.match_index followed.me ≡ ok (last_index led.snapshot_index led.log)

  -- With at most `k` refusals on the way, the rounds end: with one that succeeds (`UpToDate`), or at a next index
  -- that the leader has compacted away, where it sends its snapshot instead. The request that is
  -- sent when `k` refusals are left is handled at time `clock k`.
  pub data CatchesUp (clock : ℕ → ℤ) : ℕ → Raft C → Raft C → Type 0 where
    needs_snapshot :
        {k : ℕ} {led followed : Raft C} (n : ℤ)
        → Together led followed n
        → n ≤ℤ led.snapshot_index
        → request_for led followed.me ≡ ok (install_snapshot (snapshot_args led))
        → CatchesUp clock k led followed
    up_to_date :
        {k : ℕ} {led followed : Raft C}
        → UpToDate (clock k) led followed
        → CatchesUp clock k led followed
    one_more :
        {k : ℕ} {led followed : Raft C} (led' followed' : Raft C) (args : AppendEntriesArgs C)
        (reply : AppendEntriesReply)
        → Round (clock (suc k)) led followed led' followed' args reply
        → reply.success ≡ false
        → CatchesUp clock k led' followed'
        → CatchesUp clock (suc k) led followed
