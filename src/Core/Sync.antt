-- ===== src/Core/Sync.antt =====
-- src/core/raft_core.c: the membership of a core follows its log.
use turboraft.Prelude.{ℕ, ◌-◌, ◌&&◌, not, List, [], ◌∷◌, leb, if◌then◌else◌, take, drop, min}
use turboraft.Status.{Result, ok, ◌>>=◌}
use turboraft.Entry.{Entry, is_configuration}
use turboraft.Membership.Vote.{is_voter}
use turboraft.Transition.{Transition, stage_entry, apply}
use turboraft.Log.{last_index}
use turboraft.Core.{Core}
use turboraft.Core.Peers.{membership, build_peer_set, refresh_peers, leads}
use turboraft.Core.Election.{become_follower}

-- The end of `tr_core_sync_membership`.
unfoldable pub update_voter : Core → Core
update_voter core =
    let self_is_voter = is_voter (membership core) core.self_id in
    let updated = record core { self_is_voter = self_is_voter } in
    if not self_is_voter && leads core.role then become_follower core.term updated else updated

unfoldable pub sync_membership : Core → Result Core
unfolding update_voter
sync_membership core = do
  peers ← build_peer_set core.membership_transition
  ok (update_voter (refresh_peers core peers))

-- The loops that stage the configurations among some entries.
unfoldable pub stage_entries : Transition → List Entry → Result Transition
stage_entries t [] = ok t
stage_entries t (e ∷ es) =
    if not (is_configuration e)
    then stage_entries t es
    else (do t' ← stage_entry t e; stage_entries t' es)

unfoldable pub replay_membership_log : Core → Result Core
unfolding stage_entries
replay_membership_log core = do
  staged ← stage_entries core.membership_transition core.log.entries
  sync_membership (record core { membership_transition = apply staged core.commit_index })

-- The entries of the log above the commit index, up to an index.
unfoldable pub uncommitted : Core → ℕ → List Entry
uncommitted core retained_through =
    take (min retained_through (last_index core.log) - core.commit_index)
      (drop (core.commit_index - core.log.base_index) core.log.entries)

-- `index <= commit_index` leaves an incoming entry out.
unfoldable pub above_commit : ℕ → List Entry → List Entry
above_commit commit_index [] = []
above_commit commit_index (e ∷ es) =
    if leb e.index commit_index
    then above_commit commit_index es
    else e ∷ above_commit commit_index es

unfoldable pub rebuild_pending_transition : Core → ℕ → List Entry → Result Transition
unfolding uncommitted above_commit
rebuild_pending_transition core retained_through incoming = do
  let cleared : Transition = record (core.membership_transition) { pending = [] }
  rebuilt ← stage_entries cleared (uncommitted core retained_through)
  stage_entries rebuilt (above_commit core.commit_index incoming)
