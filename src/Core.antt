-- ===== src/Core.antt =====
-- src/core/raft_core.c, a single-owner Raft core: its state, its messages and what a call reports.
-- The functions are in the child modules, in the order of the file. Arrays are functions from an
-- index; they are read and written below the peer count, which is at most 31.
pub mod Window
pub mod Outcome
pub mod Peers
pub mod Emit
pub mod Replicate
pub mod Reads
pub mod Election
pub mod Sync
pub mod Follow
pub mod Commit
pub mod Leader
pub mod Step
pub mod Tick
pub mod Api
pub mod Apply
pub mod Create
pub mod Inspect
use turboraft.Prelude.{ℕ, Bool, List, ◌^◌, ◌-◌, ◌==◌, if◌then◌else◌}
use turboraft.Conf.{Conf}
use turboraft.Entry.{Entry}
use turboraft.PeerSet.{PeerSet}
use turboraft.Transition.{Transition}
use turboraft.Log.{Log}

abbrev pub u32_max : ℕ
u32_max = 2 ^ 32 - 1

abbrev pub max_append_entries : ℕ
max_append_entries = 8

abbrev pub max_inflight : ℕ
max_inflight = 64

abbrev pub default_max_inflight : ℕ
default_max_inflight = 1

pub data Role : Type 0 where
  follower pre_candidate candidate leader : Role

-- `tr_raft_message_type_t`; `unknown_type` is any other value of the enumeration's integer.
pub data MessageType : Type 0 where
  pre_vote_request pre_vote_response vote_request vote_response : MessageType
  heartbeat_request heartbeat_response append_request append_response : MessageType
  timeout_now read_index_request read_index_response : MessageType
  unknown_type : ℕ → MessageType

-- `tr_raft_message_t`; `entry_count` is the length of `entries`.
pub record Message : Type 0 where
  pub type : MessageType
  pub from : ℕ
  pub to : ℕ
  pub term : ℕ
  pub campaign_term : ℕ
  pub last_log_index : ℕ
  pub last_log_term : ℕ
  pub leader_commit : ℕ
  pub previous_log_index : ℕ
  pub previous_log_term : ℕ
  pub match_index : ℕ
  pub reject_hint : ℕ
  pub entries : List Entry
  pub granted : Bool
  pub context_id : ℕ

-- `tr_raft_append_inflight_t`
pub record Inflight : Type 0 where
  pub previous_index : ℕ
  pub last_index : ℕ
  pub elapsed_ticks : ℕ

-- `tr_raft_append_window_t`: a ring of 64 items.
pub record AppendWindow : Type 0 where
  pub items : ℕ → Inflight
  pub head : ℕ
  pub count : ℕ
  pub probe : Bool

-- `struct tr_raft_core`; the lists of reads hold the contexts in use.
pub record Core : Type 0 where
  pub self_id : ℕ
  pub membership_transition : Transition
  pub peers : PeerSet
  pub self_is_voter : Bool
  pub role : Role
  pub leader_id : ℕ
  pub term : ℕ
  pub voted_for : ℕ
  pub log : Log
  pub commit_index : ℕ
  pub applied_index : ℕ
  pub apply_admitted_index : ℕ
  pub pending_apply_index : ℕ
  pub campaign_term : ℕ
  pub heartbeat_ticks : ℕ
  pub election_min_ticks : ℕ
  pub election_max_ticks : ℕ
  pub election_timeout_ticks : ℕ
  pub election_elapsed_ticks : ℕ
  pub heartbeat_elapsed_ticks : ℕ
  pub check_quorum_elapsed_ticks : ℕ
  pub recent_active : ℕ
  pub paused_peers : ℕ
  pub leadership_transfer_target : ℕ
  pub leadership_transfer_elapsed_ticks : ℕ
  pub leadership_transfer_sent : Bool
  pub pending_read_context_id : ℕ
  pub pending_reads : List ℕ
  pub pending_read_index : ℕ
  pub pending_read_acks : ℕ
  pub waiting_reads : List ℕ
  pub max_pending_reads : ℕ
  pub pre_votes : ℕ
  pub votes : ℕ
  pub next_index : ℕ → ℕ
  pub match_index : ℕ → ℕ
  pub append_windows : ℕ → AppendWindow
  pub max_inflight_append_requests : ℕ
  pub ready_outstanding : Bool
  pub in_call : Bool

-- `tr_raft_read_state_t`
pub record ReadState : Type 0 where
  pub context_id : ℕ
  pub index : ℕ

-- `tr_raft_snapshot_request_t`
pub record SnapshotRequest : Type 0 where
  pub peer_id : ℕ
  pub leader_term : ℕ
  pub snapshot_index : ℕ
  pub snapshot_term : ℕ

-- `tr_raft_ready_t`; a pointer into the log with a count is the list of entries. `read_state_ready`
-- and `read_state` repeat the first of `read_states`.
pub record Ready : Type 0 where
  pub message_capacity : ℕ
  pub messages : List Message
  pub hard_state_changed : Bool
  pub term : ℕ
  pub voted_for : ℕ
  pub role_changed : Bool
  pub role : Role
  pub log_changed : Bool
  pub log_truncate_from : ℕ
  pub log_entries : List Entry
  pub commit_changed : Bool
  pub commit_index : ℕ
  pub committed_entries : List Entry
  pub read_states : List ReadState
  pub snapshot_requests : List SnapshotRequest

-- What a call works on.
pub record Call : Type 0 where
  pub core : Core
  pub ready : Ready

-- An assignment to an array element.
unfoldable pub update {ℓ} : {A : Type ℓ} → (ℕ → A) → ℕ → A → ℕ → A
update f i x j = if i == j then x else f j
