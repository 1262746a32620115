-- ===== src/Core/Peers.antt =====
-- src/core/raft_core.c: the peers of a core, and quorums over them.
use turboraft.Prelude.{
  ℕ, ◌+◌, Bool, true, false, ◌&&◌, not, Option, none, some, List, [], ◌∷◌, ltb, leb, ◌==◌,
  if◌then◌else◌, length, get_or, get_elem?, test_bit, set_bit,
}
use turboraft.Conf.{Member, Conf, learner_roles, add64}
use turboraft.Membership.Vote.{is_voter, has_quorum, match_quorum}
use turboraft.PeerSet.{PeerSet, index, build}
use turboraft.Status.{Result}
use turboraft.Transition.{Transition, configurations}
use turboraft.Log.{last_index, last_term}
use turboraft.Core.{Core, Message, Role, leader, update}
use turboraft.Core.Window.{reset}

abbrev pub timeout_valid : Core → ℕ → Bool
timeout_valid core timeout =
    leb core.election_min_ticks timeout && leb timeout core.election_max_ticks

abbrev pub membership : Core → Conf
membership core = core.membership_transition.committed

abbrev pub peer_count : Core → ℕ
peer_count core = length core.peers

abbrev pub peer_id : Core → ℕ → ℕ
peer_id core i = get_or core.peers i 0

abbrev pub peer_index : Core → ℕ → Option ℕ
peer_index core node_id = index core.peers node_id

abbrev pub voter_at : Core → ℕ → Option ℕ → Option ℕ
voter_at core node_id none = none
voter_at core node_id (some i) = if is_voter (membership core) node_id then some i else none

unfoldable pub voter_index : Core → ℕ → Option ℕ
voter_index core node_id = voter_at core node_id (peer_index core node_id)

-- Where the code takes the index of a peer that it knows to be there.
abbrev pub known : Option ℕ → ℕ
known none = 0
known (some i) = i

unfoldable pub peer_index_paused : Core → ℕ → Bool
peer_index_paused core i = ltb i (peer_count core) && test_bit core.paused_peers i

abbrev pub paused_at : Core → Option ℕ → Bool
paused_at core none = false
paused_at core (some i) = peer_index_paused core i

unfoldable pub peer_paused : Core → ℕ → Bool
peer_paused core node_id = paused_at core (peer_index core node_id)

-- The loops over the peers, from index `i` on.
unfoldable pub unpaused_remote_from : Core → ℕ → List ℕ → ℕ
unpaused_remote_from core i [] = 0
unpaused_remote_from core i (id ∷ ids) =
    (if not (id == core.self_id) && not (peer_index_paused core i) then 1 else 0)
    + unpaused_remote_from core (i + 1) ids

unfoldable pub unpaused_remote_peer_count : Core → ℕ
unfolding unpaused_remote_from
unpaused_remote_peer_count core = unpaused_remote_from core 0 core.peers

unfoldable pub unpaused_voters_from : Core → ℕ → List ℕ → ℕ
unpaused_voters_from core i [] = 0
unpaused_voters_from core i (id ∷ ids) =
    (if not (id == core.self_id) && is_voter (membership core) id && not (peer_index_paused core i)
      then 1
      else 0)
    + unpaused_voters_from core (i + 1) ids

unfoldable pub unpaused_remote_voter_count : Core → ℕ
unfolding unpaused_voters_from
unpaused_remote_voter_count core = unpaused_voters_from core 0 core.peers

unfoldable pub peer_set_unpaused_remote_count : Core → PeerSet → ℕ
peer_set_unpaused_remote_count core [] = 0
peer_set_unpaused_remote_count core (id ∷ ids) =
    (if not (id == core.self_id) && not (peer_paused core id) then 1 else 0)
    + peer_set_unpaused_remote_count core ids

unfoldable pub voter_count_of : Conf → List Member → ℕ
voter_count_of c [] = 0
voter_count_of c (m ∷ ms) = (if is_voter c m.node_id then 1 else 0) + voter_count_of c ms

unfoldable pub learner_count_of : List Member → ℕ
learner_count_of [] = 0
learner_count_of (m ∷ ms) = (if m.roles == learner_roles then 1 else 0) + learner_count_of ms

abbrev pub acked_at : ℕ → Option ℕ → Bool
acked_at acknowledgements none = false
acked_at acknowledgements (some i) = test_bit acknowledgements i

-- The loop of `tr_core_has_quorum`: bits by peer index become bits by member index.
unfoldable pub membership_acks : PeerSet → ℕ → ℕ → ℕ → List Member → ℕ
membership_acks peers acknowledgements i acks [] = acks
membership_acks peers acknowledgements i acks (m ∷ ms) =
    membership_acks peers acknowledgements (i + 1)
      (if acked_at acknowledgements (index peers m.node_id) then set_bit acks i else acks) ms

unfoldable pub core_has_quorum : Core → ℕ → Bool
unfolding membership_acks
core_has_quorum core acknowledgements =
    has_quorum (membership core)
      (membership_acks core.peers acknowledgements 0 0 (membership core).members)

abbrev pub match_at : Core → Option ℕ → ℕ
match_at core none = 0
match_at core (some i) = core.match_index i

abbrev pub match_of_member : Core → Option Member → ℕ
match_of_member core none = 0
match_of_member core (some m) = match_at core (peer_index core m.node_id)

-- The array that the loop of `tr_core_match_quorum` fills.
unfoldable pub membership_matches : Core → ℕ → ℕ
membership_matches core i = match_of_member core (get_elem? (membership core).members i)

unfoldable pub core_match_quorum : Core → ℕ → Bool
unfolding membership_matches
core_match_quorum core candidate =
    match_quorum (membership core) (membership_matches core) candidate

unfoldable pub build_peer_set : Transition → Result PeerSet
build_peer_set t = build (t.committed ∷ configurations t.pending)

unfoldable pub ids_equal : List ℕ → List ℕ → Bool
ids_equal [] [] = true
ids_equal [] (b ∷ bs) = false
ids_equal (a ∷ as') [] = false
ids_equal (a ∷ as') (b ∷ bs) = if a == b then ids_equal as' bs else false

-- The arrays and bit sets that the loop of `tr_core_refresh_peers` fills.
abbrev pub old_index : PeerSet → Option ℕ → Option ℕ
old_index old_peers none = none
old_index old_peers (some id) = index old_peers id

abbrev pub moved_match : Core → Option ℕ → ℕ
moved_match core none = 0
moved_match core (some old) = core.match_index old

abbrev pub moved_next : Core → Option ℕ → Option ℕ → ℕ
moved_next core none old = 0
moved_next core (some id) none = add64 (last_index core.log) 1
moved_next core (some id) (some old) = add64 (core.match_index old) 1

unfoldable pub moved_bits : PeerSet → ℕ → ℕ → ℕ → PeerSet → ℕ
moved_bits old_peers bits i moved [] = moved
moved_bits old_peers bits i moved (id ∷ ids) =
    moved_bits old_peers bits (i + 1)
      (if acked_at bits (index old_peers id) then set_bit moved i else moved) ids

unfoldable pub move_peers : Core → PeerSet → Core
unfolding moved_bits
move_peers core next_peers = record core {
  peers = next_peers;
  match_index = λ i. moved_match core (old_index core.peers (get_elem? next_peers i));
  next_index =
      λ i. moved_next core (get_elem? next_peers i) (old_index core.peers (get_elem? next_peers i));
  append_windows = λ i. reset (ltb i (length next_peers));
  recent_active = moved_bits core.peers core.recent_active 0 0 next_peers;
  paused_peers = moved_bits core.peers core.paused_peers 0 0 next_peers;
}

-- The end of `tr_core_refresh_peers`, where the core leads.
unfoldable pub own_progress : Core → Option ℕ → Core
own_progress core none = core
own_progress core (some i) = record core {
  match_index = update core.match_index i (last_index core.log);
  next_index = update core.next_index i (add64 (last_index core.log) 1);
  append_windows = update core.append_windows i (reset false);
  recent_active = set_bit core.recent_active i;
}

abbrev pub leads : Role → Bool
leads leader = true
leads _ = false

unfoldable pub refresh_peers : Core → PeerSet → Core
unfolding ids_equal move_peers own_progress
refresh_peers core next_peers =
    if ids_equal core.peers next_peers
    then core
    else (let moved = move_peers core next_peers in
        if leads core.role then own_progress moved (peer_index moved core.self_id) else moved)

-- `tr_log_is_up_to_date`
unfoldable pub log_is_up_to_date : Core → Message → Bool
log_is_up_to_date core message =
    if not (message.last_log_term == last_term core.log)
    then ltb (last_term core.log) message.last_log_term
    else leb (last_index core.log) message.last_log_index
