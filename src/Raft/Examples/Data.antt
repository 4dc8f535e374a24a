-- ===== src/Raft/Examples/Data.antt =====
-- Three peers whose commands are numbers, with an encoding of their durable state.
use model_lib.Prelude.{
  ℕ, zero, suc, ◌≡◌, refl, ◌∙◌, ◌≢◌, true, Option, none, some, List, [], ◌∷◌, arith, length,
}
use model_lib.Prelude.Int.{ℤ, pos, negsuc, minus_one, inc}
use model_lib.Raft.Persist.{PersistentState, Gob, GobLaws, make_persister}
use model_lib.Raft.Service.{blank}
use model_lib.Raft.State.{
  leader, LogEntry, Raft, AppendEntriesArgs, AppendEntriesReply, zero_append_reply,
}
use model_lib.Raft.WellFormed.{IsWellFormed, Fits}

-- Readers pass the value and the rest of the bytes on.
abbrev put_int : ℤ → List ℕ → List ℕ
put_int (pos n) rest = 0 ∷ n ∷ rest
put_int (negsuc n) rest = 1 ∷ n ∷ rest

abbrev read_int : {A : Type 0} → List ℕ → (ℤ → List ℕ → Option A) → Option A
read_int (zero ∷ n ∷ rest) next = next (pos n) rest
read_int (suc _ ∷ n ∷ rest) next = next (negsuc n) rest
read_int _ next = none

abbrev put_log : List (LogEntry ℕ) → List ℕ → List ℕ
put_log [] rest = rest
put_log (e ∷ es) rest = put_int e.term (put_int e.index (e.command ∷ put_log es rest))

abbrev read_head : {A : Type 0} → List ℕ → (ℕ → List ℕ → Option A) → Option A
read_head [] next = none
read_head (n ∷ rest) next = next n rest

abbrev read_log : {A : Type 0} → ℕ → List ℕ → (List (LogEntry ℕ) → List ℕ → Option A) → Option A
read_log zero bytes next = next [] bytes
read_log (suc n) bytes next = read_int bytes λ term bytes. read_int bytes λ index bytes.
    read_head bytes λ command bytes.
      read_log n bytes
        λ es bytes. next (record { term = term; index = index; command = command } ∷ es) bytes

read_int-put_int :
    {A : Type 0} (i : ℤ) (rest : List ℕ) (next : ℤ → List ℕ → Option A)
    → read_int (put_int i rest) next ≡ next i rest
read_int-put_int (pos n) rest next = refl
read_int-put_int (negsuc n) rest next = refl

read_log-put_log :
    {A : Type 0} (es : List (LogEntry ℕ)) (rest : List ℕ)
    (next : List (LogEntry ℕ) → List ℕ → Option A)
    → read_log (length es) (put_log es rest) next ≡ next es rest
read_log-put_log [] rest next = refl
read_log-put_log (e ∷ es) rest next =
    read_int-put_int e.term _ _
    ∙ read_int-put_int e.index _ _
    ∙ read_log-put_log es rest (λ es. next (e ∷ es))

abbrev encode_state : PersistentState ℕ → List ℕ
encode_state s = put_int s.current_term (
    put_int s.voted_for
      (length s.log ∷ put_log s.log (put_int s.snapshot_index (put_int s.snapshot_term []))))

abbrev decode_state : List ℕ → Option (PersistentState ℕ)
decode_state bytes = read_int bytes λ current_term bytes. read_int bytes λ voted_for bytes.
    read_head bytes λ n bytes. read_log n bytes λ log bytes. read_int bytes λ snapshot_index bytes.
      read_int bytes λ snapshot_term bytes. some (record {
        current_term = current_term;
        voted_for = voted_for;
        log = log;
        snapshot_index = snapshot_index;
        snapshot_term = snapshot_term;
      })

instance abbrev pub number_gob : Gob ℕ
number_gob = record { encode = encode_state; decode = decode_state }

pub number_gob-GobLaws : GobLaws number_gob
number_gob-GobLaws = record {
  round_trip = λ s.
      read_int-put_int s.current_term _ _
      ∙ read_int-put_int s.voted_for _ _
      ∙ read_log-put_log s.log _ _
      ∙ read_int-put_int s.snapshot_index _ _
      ∙ read_int-put_int s.snapshot_term _ _;
  some_bytes = λ s. first_byte s.current_term _;
}
  where
    first_byte : (i : ℤ) (rest : List ℕ) → put_int i rest ≢ []
    first_byte (pos n) rest e = cc
    first_byte (negsuc n) rest e = cc

abbrev pub number_entry : ℤ → ℤ → ℕ → LogEntry ℕ
number_entry term index command = record { term = term; index = index; command = command }

-- A fresh peer of three.
abbrev pub fresh_peer : ℤ → Raft ℕ
fresh_peer me = blank (pos 0) 0 3 me make_persister

-- Peer 0 leads term 2 and has committed up to index 1.
abbrev pub leading_peer : Raft ℕ
leading_peer = record (fresh_peer (pos 0)) {
  role = leader;
  current_term = pos 2;
  log =
      number_entry (pos 1) (pos 0) 10
      ∷ number_entry (pos 1) (pos 1) 11
      ∷ number_entry (pos 2) (pos 2) 12
      ∷ [];
  commit_index = pos 1;
  next_index = pos 3 ∷ pos 1 ∷ pos 3 ∷ [];
  match_index = pos 2 ∷ pos 0 ∷ pos 2 ∷ [];
}

-- Peer 1 follows in term 1, holds one entry that is committed and one that is not.
abbrev pub following_peer : Raft ℕ
following_peer = record (fresh_peer (pos 1)) {
  current_term = pos 1;
  log = number_entry (pos 1) (pos 0) 10 ∷ number_entry (pos 0) (pos 1) 90 ∷ [];
  commit_index = pos 0;
}

-- What peer 0 sends to peer 1.
abbrev pub append_args : AppendEntriesArgs ℕ
append_args = record {
  term = pos 2;
  leader_id = pos 0;
  prev_log_index = pos 0;
  prev_log_term = pos 1;
  entries = number_entry (pos 1) (pos 1) 11 ∷ number_entry (pos 2) (pos 2) 12 ∷ [];
  leader_commit = pos 1;
}

abbrev pub success_reply : AppendEntriesReply
success_reply = record zero_append_reply {
  term = pos 2;
  success = true;
  server_id = pos 1;
  x_term = minus_one;
  x_index = minus_one;
  x_len = pos 3;
}

-- Peer 2 has compacted its log up to index 1.
abbrev pub compacted_peer : Raft ℕ
compacted_peer = record (fresh_peer (pos 2)) {
  current_term = pos 2;
  snapshot = 7 ∷ [];
  snapshot_index = pos 1;
  snapshot_term = pos 1;
  commit_index = pos 2;
  log = number_entry (pos 2) (pos 2) 12 ∷ number_entry (pos 2) (pos 3) 13 ∷ [];
}

pub leading_peer-IsWellFormed : IsWellFormed leading_peer
unfolding inc
leading_peer-IsWellFormed = record {
  log_contiguous = (refl, (refl, (refl, tt)));
  snapshot_low = omega arith;
  commit_low = omega arith;
  commit_high = omega arith;
}

pub following_peer-IsWellFormed : IsWellFormed following_peer
unfolding inc
following_peer-IsWellFormed = record {
  log_contiguous = (refl, (refl, tt));
  snapshot_low = omega arith;
  commit_low = omega arith;
  commit_high = omega arith;
}

pub compacted_peer-IsWellFormed : IsWellFormed compacted_peer
unfolding inc
compacted_peer-IsWellFormed = record {
  log_contiguous = (refl, (refl, tt));
  snapshot_low = omega arith;
  commit_low = omega arith;
  commit_high = omega arith;
}

pub append_args-Fits : Fits following_peer append_args
unfolding inc
append_args-Fits = record {
  entries_contiguous = (refl, (refl, tt));
  prev_low = omega arith;
  start = λ e. cc;
  prev_agrees = ((λ e le. refl), ((λ e le. cc), tt));
  entries_agree = (
    ((λ e le. refl), ((λ e le. cc), tt)),
    (((λ e le. absurd (omega arith)), ((λ e le. cc), tt)), tt),
  );
}
