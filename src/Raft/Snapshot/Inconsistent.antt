-- ===== src/Raft/Snapshot/Inconsistent.antt =====
-- A snapshot whose last entry the receiver holds with another term: InstallSnapshotRequestHandler.
use model_lib.Prelude.{
  ℕ, ◌≡◌, sym, subst, ap₂, ◌∙◌, ◌≢◌, inl, inr, false, List, ◌∷◌, ◌++◌, arith, Bool-cases, All,
  All-right,
}
use model_lib.Prelude.Go.{log_inconsistent, ok, panic, bind_ok, bind_panic, get, slice_from}
use model_lib.Prelude.Int.{
  ℤ, pos, ◌≤ℤ◌, ◌<ℤ◌, ltb_ℤ, leb_ℤ, ◌==ℤ◌, inc, pos-==ℤ-minus_one, parts_of_eq, ==ℤ_ne,
}
use model_lib.Prelude.Slices.{get-split, slice_from-after}
use model_lib.Raft.Append.Following.{to_follower_cases}
use model_lib.Raft.Log.Contiguous.{Contiguous, last_index, find_index_inside}
use model_lib.Raft.Persist.{Gob}
use model_lib.Raft.Snapshot.{take_part, take_snapshot, install_snapshot_request_handler}
use model_lib.Raft.Snapshot.Install.{caught_up}
use model_lib.Raft.State.{LogEntry, Raft, InstallSnapshotArgs, InstallSnapshotReply}
use model_lib.Raft.WellFormed.{IsWellFormed}

module _ {C : Type 0} where
  -- No entry of the log at the index has the term.
  abbrev pub OtherTerm : ℤ → ℤ → List (LogEntry C) → Type 0
  OtherTerm index term log = All (λ e. e.index ≡ index → e.term ≢ term) log

  take_snapshot-panics :
      (rf : Raft C) (args : InstallSnapshotArgs)
      → Contiguous rf.snapshot_index rf.log
      → rf.snapshot_index <ℤ args.last_included_index
      → args.last_included_index ≤ℤ last_index rf.snapshot_index rf.log
      → OtherTerm args.last_included_index args.last_included_term rf.log
      → take_snapshot rf args ≡ panic log_inconsistent
  unfolding take_snapshot take_part
  take_snapshot-panics rf args h above below other =
      let (k, f, found, s) =
        find_index_inside rf.snapshot_index args.last_included_index rf.log h above below in
      let all : OtherTerm args.last_included_index args.last_included_term
          (f.before ++ f.entry ∷ f.after) =
        subst (OtherTerm args.last_included_index args.last_included_term) f.split other in
      let differs : (f.entry.term ==ℤ args.last_included_term) ≡ false =
        ==ℤ_ne f.entry.term args.last_included_term
          ((All-right _ f.before (f.entry ∷ f.after) all).0 f.has_index) in
      let read : get rf.log (pos k) ≡ ok f.entry =
        ap₂ (λ l (m : ℕ). get l (pos m)) f.split (sym f.at) ∙ get-split f.before f.after f.entry in
      let rest : slice_from rf.log (inc (pos k)) ≡ ok f.after =
        ap₂ (λ l (m : ℕ). slice_from l (inc (pos m))) f.split (sym f.at)
        ∙ slice_from-after f.before f.after f.entry in
      rw found (rw (pos-==ℤ-minus_one k) (bind_ok _ read ∙ bind_ok _ rest ∙ rw differs))

module _ {C : Type 0} ⦃g : Gob C⦄ where
  caught_up-panics :
      (now : ℤ) (rf : Raft C) (args : InstallSnapshotArgs)
      → IsWellFormed rf
      → rf.snapshot_index <ℤ args.last_included_index
      → args.last_included_index ≤ℤ last_index rf.snapshot_index rf.log
      → OtherTerm args.last_included_index args.last_included_term rf.log
      → take_snapshot (caught_up now rf args) args ≡ panic log_inconsistent
  caught_up-panics now rf args wf above below other =
      elim (Bool-cases (ltb_ℤ rf.current_term args.term)) [
        | inl lower ↦ rw lower (
            to_follower_cases (λ r. take_snapshot r args ≡ panic log_inconsistent) args.term
              (record rf { last_heartbeat_time = now })
              (λ newer. take_snapshot-panics _ args wf.log_contiguous above below other)
              (λ same. take_snapshot-panics _ args wf.log_contiguous above below other))
        | inr same ↦ rw same (take_snapshot-panics _ args wf.log_contiguous above below other)
      ]

  -- A well-formed peer that receives, in its own or a newer term, a snapshot that ends inside its
  -- log at an entry of another term panics, where it should drop its uncommitted entries.
  pub install_snapshot_request-panics :
      (now : ℤ) (rf : Raft C) (args : InstallSnapshotArgs) (reply : InstallSnapshotReply)
      → IsWellFormed rf
      → rf.current_term ≤ℤ args.term
      → rf.snapshot_index <ℤ args.last_included_index
      → args.last_included_index ≤ℤ last_index rf.snapshot_index rf.log
      → OtherTerm args.last_included_index args.last_included_term rf.log
      → install_snapshot_request_handler now rf args reply ≡ panic log_inconsistent
  unfolding install_snapshot_request_handler
  install_snapshot_request-panics now rf args reply wf le above below other =
      let different : (rf.snapshot_index ==ℤ args.last_included_index) ≡ false =
        ==ℤ_ne rf.snapshot_index args.last_included_index (λ e. omega (arith, parts_of_eq e)) in
      let current : ltb_ℤ args.term rf.current_term ≡ false = ground arith in
      let fresh : leb_ℤ args.last_included_index rf.snapshot_index ≡ false = ground arith in
      rw (different, current, fresh)
        (bind_panic _ (caught_up-panics now rf args wf above below other))
