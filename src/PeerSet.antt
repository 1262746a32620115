-- ===== src/PeerSet.antt =====
-- src/core/raft_peer_set.c: the peers of several memberships, in one strictly ascending set.
use turboraft.Prelude.{
  ℕ, zero, suc, ◌+◌, Bool, true, false, ◌||◌, not, Option, none, some, List, [], ◌∷◌, map, ltb, leb,
  ◌==◌, if◌then◌else◌, length,
}
use turboraft.Status.{einval, enospc, Result, ok, err, ◌>>=◌}
use turboraft.Conf.{Member, Conf, u64_max, max_members}
use turboraft.Membership.Change.{skip}

abbrev pub max_sources : ℕ
max_sources = 3

-- `tr_raft_peer_set_t`: the node ids in use.
abbrev pub PeerSet : Type 0
PeerSet = List ℕ

unfoldable pub members_ascend : ℕ → List Member → Bool
members_ascend previous [] = true
members_ascend previous (m ∷ ms) =
    if m.node_id == 0 || leb m.node_id previous then false else members_ascend m.node_id ms

unfoldable pub membership_valid : Conf → Bool
unfolding members_ascend
membership_valid membership =
    if length membership.members == 0 || ltb max_members (length membership.members)
    then false
    else members_ascend 0 membership.members

unfoldable pub all_valid : List Conf → Bool
all_valid [] = true
all_valid (m ∷ ms) = if not (membership_valid m) then false else all_valid ms

abbrev pub node_ids : Conf → List ℕ
node_ids membership = map (λ (m : Member). m.node_id) membership.members

-- The first inner loop of `tr_raft_peer_set_build`, on what is left of each source: `next`, and
-- whether it is `available`.
unfoldable pub scan : ℕ → Bool → List (List ℕ) → ℕ × Bool
scan next available [] = (next, available)
scan next available ([] ∷ sources) = scan next available sources
scan next available ((id ∷ ids) ∷ sources) =
    scan (if ltb id next then id else next) (if ltb id next then true else available) sources

-- The second inner loop.
unfoldable pub advance : ℕ → List (List ℕ) → List (List ℕ)
unfolding skip
advance next = map (skip next)

-- The `for (;;)` loop; `count` is `peers->count`.
unfoldable pub build_loop : ℕ → ℕ → List (List ℕ) → Result PeerSet
build_loop zero count sources = ok []
build_loop (suc fuel) count sources =
    let (next, available) = scan u64_max false sources in
    let rest = build_loop fuel (count + 1) (advance next sources) in
    if not available
    then ok []
    else if count == max_members
    then err enospc
    else (do ids ← rest; ok (next ∷ ids))

unfoldable pub total_length : List (List ℕ) → ℕ
total_length [] = 0
total_length (ids ∷ sources) = length ids + total_length sources

-- Each round takes an id off a source, so the fuel is one more than the ids.
unfoldable pub build : List Conf → Result PeerSet
unfolding total_length
build memberships =
    if length memberships == 0 || ltb max_sources (length memberships)
    then err einval
    else if not (all_valid memberships)
    then err einval
    else build_loop (suc (total_length (map node_ids memberships))) 0 (map node_ids memberships)

unfoldable pub index_from : ℕ → ℕ → PeerSet → Option ℕ
index_from i node_id [] = none
index_from i node_id (id ∷ ids) =
    if id == node_id
    then some i
    else if ltb node_id id
    then none
    else index_from (i + 1) node_id ids

unfoldable pub index : PeerSet → ℕ → Option ℕ
unfolding index_from
index peers node_id = if node_id == 0 then none else index_from 0 node_id peers
