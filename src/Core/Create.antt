-- ===== src/Core/Create.antt =====
-- src/core/raft_core.c: `tr_raft_core_create`. A pointer with a count is a list, and the optional
-- configuration is an `Option`.
use turboraft.Prelude.{
  ℕ, ◌+◌, Bool, true, false, ◌||◌, ◌&&◌, not, Option, none, some, List, [], ◌∷◌, ltb, leb, ◌==◌,
  if◌then◌else◌, length, test_bit,
}
use turboraft.Status.{einval, eproto, crashed, Result, ok, err, ◌>>=◌}
use turboraft.Conf.{Member, Conf, max_members, old_voter, new_voter, validate, is_ok}
use turboraft.Entry.{Entry}
use turboraft.PeerSet.{PeerSet, build}
use turboraft.Transition.{Transition}
use turboraft.Transition
use turboraft.Vec.{Vec}
use turboraft.Log.{Log, last_index}
use turboraft.Log
use turboraft.Log.Reconcile.{Outcome, undefined, returns, reconcile}
use turboraft.Membership.{ids_ascend}
use turboraft.Core.{Core, follower, max_inflight}
use turboraft.Core.Window.{reset}
use turboraft.Core.Sync.{replay_membership_log}

abbrev pub default_max_log_entries : ℕ
default_max_log_entries = 1024

abbrev pub default_max_pending_reads : ℕ
default_max_pending_reads = 16

abbrev pub max_pending_reads_limit : ℕ
max_pending_reads_limit = 64

-- `tr_raft_core_config_t`
pub record CoreConfig : Type 0 where
  pub self_id : ℕ
  pub voters : List ℕ
  pub learners : List ℕ
  pub initial_configuration : Option Conf
  pub heartbeat_ticks : ℕ
  pub election_min_ticks : ℕ
  pub election_max_ticks : ℕ
  pub initial_election_timeout_ticks : ℕ
  pub initial_term : ℕ
  pub initial_vote : ℕ
  pub initial_last_log_index : ℕ
  pub initial_last_log_term : ℕ
  pub initial_log_entries : List Entry
  pub initial_commit_index : ℕ
  pub initial_applied_index : ℕ
  pub max_log_entries : ℕ
  pub max_pending_reads : ℕ
  pub max_inflight_append_requests : ℕ

unfoldable pub bounds_valid : CoreConfig → Bool
bounds_valid c = not (
    c.self_id == 0
    || length c.voters == 0
    || ltb max_members (length c.voters)
    || ltb max_members (length c.learners)
    || ltb max_members (length c.voters + length c.learners)
    || c.heartbeat_ticks == 0
    || leb c.election_min_ticks c.heartbeat_ticks
    || ltb c.election_max_ticks c.election_min_ticks
    || ltb c.initial_election_timeout_ticks c.election_min_ticks
    || ltb c.election_max_ticks c.initial_election_timeout_ticks
    || ltb max_inflight c.max_inflight_append_requests
    || ltb max_pending_reads_limit c.max_pending_reads)

unfoldable pub mem_id : ℕ → List ℕ → Bool
mem_id id [] = false
mem_id id (x ∷ xs) = if x == id then true else mem_id id xs

unfoldable pub count_id : ℕ → List ℕ → ℕ
count_id id [] = 0
count_id id (x ∷ xs) = (if x == id then 1 else 0) + count_id id xs

unfoldable pub disjoint : List ℕ → List ℕ → Bool
unfolding mem_id
disjoint [] voters = true
disjoint (l ∷ learners) voters = if mem_id l voters then false else disjoint learners voters

-- The loops over the two sets.
unfoldable pub sets_valid : CoreConfig → Bool
sets_valid c = ids_ascend 0 c.voters && ids_ascend 0 c.learners && disjoint c.learners c.voters

abbrev pub member_votes : Member → Bool
member_votes m = test_bit m.roles old_voter || test_bit m.roles new_voter

unfoldable pub count_member : ℕ → List Member → ℕ
count_member id [] = 0
count_member id (m ∷ ms) = (if m.node_id == id then 1 else 0) + count_member id ms

unfoldable pub votes_in : ℕ → List Member → Bool
votes_in id [] = false
votes_in id (m ∷ ms) = if m.node_id == id && member_votes m then true else votes_in id ms

-- How often this node is in the cluster, and whether a node votes in it.
unfoldable pub self_count : CoreConfig → ℕ
self_count c = elim c.initial_configuration [
  | none ↦ count_id c.self_id c.voters + count_id c.self_id c.learners
  | some conf ↦ count_member c.self_id conf.members
]

unfoldable pub votes_initially : CoreConfig → ℕ → Bool
unfolding mem_id
votes_initially c id = elim c.initial_configuration [
  | none ↦ mem_id id c.voters
  | some conf ↦ votes_in id conf.members
]

unfoldable pub configuration_valid : Option Conf → Bool
configuration_valid none = true
configuration_valid (some conf) = is_ok (validate conf)

-- The checks before anything is allocated.
unfoldable pub config_valid : CoreConfig → Bool
unfolding bounds_valid sets_valid configuration_valid self_count votes_initially
config_valid c =
    bounds_valid c
    && sets_valid c
    && configuration_valid c.initial_configuration
    && self_count c == 1
    && (c.initial_vote == 0 || (votes_initially c c.initial_vote && votes_initially c c.self_id))

unfoldable pub initial_transition : CoreConfig → Result Transition
initial_transition c = elim c.initial_configuration [
  | none ↦ Transition.init c.voters c.learners
  | some conf ↦ Transition.init_configuration conf
]

-- The entries behind the snapshot are taken as a leader's.
unfoldable pub loaded : CoreConfig → Outcome → Result Log
loaded c undefined = err crashed
loaded c (returns (err e)) = err e
loaded c (returns (ok (r, log))) = if not r.matched then err eproto else ok log

unfoldable pub load : Vec → CoreConfig → Log → Result Log
unfolding loaded
load v c log =
    if length c.initial_log_entries == 0
    then ok log
    else loaded c
        (reconcile v log c.initial_last_log_index c.initial_last_log_term c.initial_log_entries 0)

unfoldable pub initial_log : Vec → CoreConfig → Result Log
unfolding load
initial_log v c = do
  log ←
      Log.init v (if c.max_log_entries == 0 then default_max_log_entries else c.max_log_entries)
        c.initial_last_log_index c.initial_last_log_term
  load v c log

-- A snapshot counts as committed and applied.
abbrev pub or_snapshot : CoreConfig → ℕ → ℕ
or_snapshot c index =
    if not (c.initial_last_log_index == 0) && index == 0 then c.initial_last_log_index else index

unfoldable pub fresh_core : CoreConfig → Transition → PeerSet → Log → Core
fresh_core c t peers log = record {
  self_id = c.self_id;
  membership_transition = t;
  peers = peers;
  self_is_voter = false;
  role = follower;
  leader_id = 0;
  term = c.initial_term;
  voted_for = c.initial_vote;
  log = log;
  commit_index = or_snapshot c c.initial_commit_index;
  applied_index = or_snapshot c c.initial_applied_index;
  apply_admitted_index = or_snapshot c c.initial_applied_index;
  pending_apply_index = 0;
  campaign_term = 0;
  heartbeat_ticks = c.heartbeat_ticks;
  election_min_ticks = c.election_min_ticks;
  election_max_ticks = c.election_max_ticks;
  election_timeout_ticks = c.initial_election_timeout_ticks;
  election_elapsed_ticks = 0;
  heartbeat_elapsed_ticks = 0;
  check_quorum_elapsed_ticks = 0;
  recent_active = 0;
  paused_peers = 0;
  leadership_transfer_target = 0;
  leadership_transfer_elapsed_ticks = 0;
  leadership_transfer_sent = false;
  pending_read_context_id = 0;
  pending_reads = [];
  pending_read_index = 0;
  pending_read_acks = 0;
  waiting_reads = [];
  max_pending_reads =
      (if c.max_pending_reads == 0 then default_max_pending_reads else c.max_pending_reads);
  pre_votes = 0;
  votes = 0;
  next_index = λ _. 0;
  match_index = λ _. 0;
  append_windows = λ _. reset true;
  max_inflight_append_requests =
      (if c.max_inflight_append_requests == 0 then 1 else c.max_inflight_append_requests);
  ready_outstanding = false;
  in_call = false;
}

-- The windows are marked as probes last.
abbrev pub probing : Core → Core
probing core = record core { append_windows = λ i. record (core.append_windows i) { probe = true } }

unfoldable pub indices_valid : CoreConfig → Log → Bool
indices_valid c log = not (
    ltb (or_snapshot c c.initial_applied_index) c.initial_last_log_index
    || ltb (or_snapshot c c.initial_commit_index) (or_snapshot c c.initial_applied_index)
    || ltb (last_index log) (or_snapshot c c.initial_commit_index))

unfoldable pub start : CoreConfig → Core → Result Core
unfolding indices_valid
start c core =
    if not (indices_valid c core.log)
    then err einval
    else (do replayed ← replay_membership_log core; ok (probing replayed))

unfoldable pub create : Vec → CoreConfig → Result Core
unfolding config_valid initial_transition initial_log start fresh_core
create v c = if not (config_valid c) then err einval else (do
  t ← initial_transition c
  peers ← build (t.committed ∷ [])
  log ← initial_log v c
  start c (fresh_core c t peers log))
