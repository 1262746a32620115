-- ===== src/Core/Tick.antt =====
-- src/core/raft_core.c: `tr_raft_core_tick`, the passage of time.
use turboraft.Prelude.{
  ℕ, zero, suc, ◌+◌, ◌-◌, Bool, true, false, ◌||◌, ◌&&◌, not, ltb, leb, ◌==◌, if◌then◌else◌, bit,
}
use turboraft.Status.{einval, eproto, Result, ok, err}
use turboraft.Conf.{Conf, u64_max, add64}
use turboraft.Transition.{needs_final, final_membership}
use turboraft.Vec.{Vec}
use turboraft.Core.{Core, Call, AppendWindow, u32_max, update}
use turboraft.Core.Window.{reset, at, physical}
use turboraft.Core.Peers.{
  timeout_valid, peer_count, peer_index_paused, voter_index, known, core_has_quorum, leads,
  unpaused_remote_peer_count,
}
use turboraft.Core.Emit.{Before, before_of, begin, leave, require_capacity, finish}
use turboraft.Core.Replicate.{broadcast_replication}
use turboraft.Core.Election.{become_follower, start_pre_vote}
use turboraft.Calls.{◌▸◌, done}
use turboraft.Core.Commit.{core_append_configuration}
use turboraft.Core.Step.{or_leave_empty}

-- `tr_raft_tick_t`
pub record Tick : Type 0 where
  pub elapsed_ticks : ℕ
  pub next_election_timeout_ticks : ℕ

-- `UINT32_MAX - elapsed < ticks || elapsed + ticks >= limit`
abbrev pub due : ℕ → ℕ → ℕ → Bool
due elapsed ticks limit = ltb (u32_max - elapsed) ticks || leb limit (elapsed + ticks)

abbrev pub append_final : Vec → Result Conf → Call → Result (Unit {0}) × Call
append_final v (ok configuration) call = core_append_configuration v configuration call
append_final v (err e) call = (err e, call)

-- The end of a joint membership.
unfoldable pub finish_change : Vec → Before → Call → Result (Unit {0}) × Call
finish_change v before call =
    or_leave_empty (append_final v (final_membership call.core.membership_transition) call)
    ▸ λ appended. done (finish before appended)

unfoldable pub reset_quorum_check : Core → Core
reset_quorum_check core = record core {
  check_quorum_elapsed_ticks = 0;
  recent_active = bit (known (voter_index core core.self_id));
}

unfoldable pub tick_transfer : ℕ → Core → Core
tick_transfer ticks core =
    if core.leadership_transfer_target == 0
    then core
    else if due core.leadership_transfer_elapsed_ticks ticks core.election_timeout_ticks
    then record core {
      leadership_transfer_target = 0;
      leadership_transfer_elapsed_ticks = 0;
      leadership_transfer_sent = false;
    }
    else record core {
      leadership_transfer_elapsed_ticks = core.leadership_transfer_elapsed_ticks + ticks;
    }

-- The loop over the items of a window, the `n` from `k` on: whether one timed out, and the window.
unfoldable pub tick_window : ℕ → ℕ → ℕ → ℕ → AppendWindow → Bool × AppendWindow
tick_window zero k ticks limit window = (false, window)
tick_window (suc n) k ticks limit window =
    let item = at window k in
    let aged = record window {
      items =
          update window.items (physical window k)
            (record item { elapsed_ticks = item.elapsed_ticks + ticks });
    } in
    let rest = tick_window n (k + 1) ticks limit aged in
    if due item.elapsed_ticks ticks limit then (true, window) else rest

unfoldable pub tick_peer : ℕ → ℕ → Core → Core
unfolding tick_window
tick_peer ticks i core =
    let window = core.append_windows i in
    let (timed_out, aged) = tick_window window.count 0 ticks core.heartbeat_ticks window in
    if window.count == 0 || peer_index_paused core i
    then core
    else if timed_out
    then record core {
      next_index = update core.next_index i (add64 (core.match_index i) 1);
      append_windows = update core.append_windows i (reset true);
    }
    else record core { append_windows = update core.append_windows i aged }

unfoldable pub tick_peers : ℕ → ℕ → ℕ → Core → Core
unfolding tick_peer
tick_peers zero i ticks core = core
tick_peers (suc n) i ticks core = tick_peers n (i + 1) ticks (tick_peer ticks i core)

unfoldable pub tick_heartbeat : ℕ → ℕ → Before → Call → Result (Unit {0}) × Call
tick_heartbeat ticks remote before call =
    if due call.core.heartbeat_elapsed_ticks ticks call.core.heartbeat_ticks
    then (require_capacity remote call ▸ λ call'. done (
        finish before (
          broadcast_replication
            (record call' { core = record (call'.core) { heartbeat_elapsed_ticks = 0 } }))))
    else done (
        finish before (record call {
          core = record (call.core) {
            heartbeat_elapsed_ticks = call.core.heartbeat_elapsed_ticks + ticks;
          };
        }))

-- What a leader does behind the check of its quorum. `remote` was counted before.
unfoldable pub tick_progress : ℕ → ℕ → Before → Call → Result (Unit {0}) × Call
unfolding tick_transfer tick_peers tick_heartbeat
tick_progress ticks remote before call =
    let core = tick_transfer ticks call.core in
    tick_heartbeat ticks remote before
      (record call { core = tick_peers (peer_count core) 0 ticks core })

unfoldable pub tick_leader : ℕ → Before → Call → Result (Unit {0}) × Call
unfolding reset_quorum_check tick_progress
tick_leader ticks before call =
    let core = call.core in
    let remote = unpaused_remote_peer_count core in
    if due core.check_quorum_elapsed_ticks ticks core.election_timeout_ticks
    then (if not (core_has_quorum core core.recent_active)
        then done (finish before (record call { core = become_follower core.term core }))
        else tick_progress ticks remote before (record call { core = reset_quorum_check core }))
    else tick_progress ticks remote before (record call {
      core = record core { check_quorum_elapsed_ticks = core.check_quorum_elapsed_ticks + ticks };
    })

-- The election timer starts again.
unfoldable pub restart_timer : ℕ → Core → Core
restart_timer timeout core = record core {
  election_elapsed_ticks = 0;
  election_timeout_ticks = timeout;
}

abbrev pub age_timer : ℕ → Core → Core
age_timer ticks core = record core { election_elapsed_ticks = core.election_elapsed_ticks + ticks }

unfoldable pub tick_learner : Tick → Before → Call → Result (Unit {0}) × Call
unfolding restart_timer
tick_learner t before call =
    let core = call.core in
    done (
      finish before (record call {
        core =
            (if due core.election_elapsed_ticks t.elapsed_ticks core.election_timeout_ticks
              then restart_timer t.next_election_timeout_ticks core
              else age_timer t.elapsed_ticks core);
      }))

unfoldable pub tick_voter : Tick → Before → Call → Result (Unit {0}) × Call
unfolding restart_timer
tick_voter t before call =
    let core = call.core in
    if due core.election_elapsed_ticks t.elapsed_ticks core.election_timeout_ticks
    then (if core.term == u64_max
        then (err eproto, leave call)
        else require_capacity (unpaused_remote_peer_count core) call ▸ λ call'. done (
            finish before (
              start_pre_vote
                (record call' { core = restart_timer t.next_election_timeout_ticks call'.core }))))
    else done (finish before (record call { core = age_timer t.elapsed_ticks core }))

-- The tick of a call that has begun.
unfoldable pub tick_begun : Vec → Tick → Before → Call → Result (Unit {0}) × Call
unfolding finish_change tick_leader tick_learner tick_voter
tick_begun v t before call =
    if not (timeout_valid call.core t.next_election_timeout_ticks)
    then (err einval, leave call)
    else if leads call.core.role && needs_final call.core.membership_transition
    then finish_change v before call
    else if leads call.core.role
    then tick_leader t.elapsed_ticks before call
    else if not call.core.self_is_voter
    then tick_learner t before call
    else tick_voter t before call

unfoldable pub tick : Vec → Tick → Call → Result (Unit {0}) × Call
unfolding tick_begun
tick v t call =
    if t.elapsed_ticks == 0
    then (err einval, call)
    else begin call ▸ λ begun. tick_begun v t (before_of call.core) begun
