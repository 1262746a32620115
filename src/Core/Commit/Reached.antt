-- ===== src/Core/Commit/Reached.antt =====
-- The commit quorum of src/core/raft_core.c against the match indices of the peers.
use turboraft.Prelude.{
  ℕ, suc, ◌+◌, ◌*◌, ◌≤◌, ◌<◌, ◌≡◌, ◌≢◌, ◌↔◌, ◌∙◌, sym, ap, true, false, Bool, ltb, leb, ◌==◌, ◌&&◌,
  ◌||◌, if◌then◌else◌, inl, inr, refl, arith, List, [], ◌∷◌, length, get_elem?, Option, none, some,
  Bool-cases, test_bit,
}
use turboraft.Conf.{Member, max_members, old_voter, new_voter}
use turboraft.Conf.Valid.{count_role}
use turboraft.Membership.Match.{match_quorum-Majority, reached}
use turboraft.Membership.Quorum.{acks_role}
use turboraft.PeerSet.{index, index_from}
use turboraft.Core.{Core}
use turboraft.Core.Peers.{
  core_match_quorum, membership, membership_matches, match_at, match_of_member, peer_index,
}

-- Node ids that rise strictly.
abbrev pub Rising : ℕ → List ℕ → Type 0
Rising previous [] = Unit
Rising previous (id ∷ ids) = (previous < id) × Rising id ids

-- What `tr_core_refresh_peers` and the validation of configurations see to, and a leader's term.
pub record IsLeading (core : Core) : Type 0 where
  pub peers_rise : Rising 0 core.peers
  pub members_fit : length (membership core).members ≤ max_members
  pub term_set : core.term ≢ 0

-- Whether some peer, counted from `k`, is the node and has an index.
unfoldable pub has_reached : (ℕ → ℕ) → ℕ → ℕ → ℕ → List ℕ → Bool
has_reached match_index i node k [] = false
has_reached match_index i node k (id ∷ ids) =
    (id == node && leb i (match_index k)) || has_reached match_index i node (k + 1) ids

-- The voters of a role that have an index.
unfoldable pub reached_voters : ℕ → Core → ℕ → List Member → ℕ
unfolding has_reached
reached_voters role core i [] = 0
reached_voters role core i (m ∷ ms) =
    (if test_bit m.roles role && has_reached core.match_index i m.node_id 0 core.peers
      then 1
      else 0)
    + reached_voters role core i ms

-- More than half of the voters of a role have an index.
abbrev pub MostReached : ℕ → Core → ℕ → Type 0
MostReached role core i =
    (count_role role (membership core).members ≢ 0)
    × (count_role role (membership core).members
        < 2 * reached_voters role core i (membership core).members)

has_reached_below :
    (match_index : ℕ → ℕ) (i node k p : ℕ) (ids : List ℕ)
    → Rising p ids
    → node ≤ p
    → has_reached match_index i node k ids ≡ false
unfolding has_reached
has_reached_below match_index i node k p [] r h = refl
has_reached_below match_index i node k p (id ∷ ids) r h =
    let e : (id == node) ≡ false = ground (arith, r.0, h) in
    rw e (has_reached_below match_index i node (k + 1) id ids r.1 (omega (arith, r.0, h)))

abbrev match_found : (ℕ → ℕ) → Option ℕ → ℕ
match_found match_index none = 0
match_found match_index (some k) = match_index k

index_from-has_reached :
    (match_index : ℕ → ℕ) (i node k p : ℕ) (ids : List ℕ)
    → i ≢ 0
    → Rising p ids
    → leb i (match_found match_index (index_from k node ids)) ≡ has_reached match_index i node k ids
unfolding index_from has_reached
index_from-has_reached match_index i node k p [] nz r = ground arith
index_from-has_reached match_index i node k p (id ∷ ids) nz r = elim (Bool-cases (id == node)) [
  | inl here ↦
      let rest = has_reached_below match_index i node (k + 1) id ids r.1 (ground (arith, here)) in
      ground (arith, here, rest)
  | inr other ↦ elim (Bool-cases (ltb node id)) [
    | inl passed ↦
        let rest =
          has_reached_below match_index i node (k + 1) id ids r.1 (ground (arith, passed)) in
        ground (arith, other, passed, rest, nz)
    | inr on ↦ rw (other, on) (index_from-has_reached match_index i node (k + 1) id ids nz r.1)
  ]
]

-- The match index that the code takes for a member, against the peers.
match_at-has_reached :
    (core : Core) (i node : ℕ)
    → i ≢ 0
    → Rising 0 core.peers
    → leb i (match_at core (peer_index core node))
      ≡ has_reached core.match_index i node 0 core.peers
unfolding index
match_at-has_reached core i node nz r = elim (Bool-cases (node == 0)) [
  | inl z ↦
      let none_there =
        has_reached_below core.match_index i node 0 0 core.peers r (ground (arith, z)) in
      rw (z, none_there) (ground (arith, nz))
  | inr there ↦ rw there (
      found (index_from 0 node core.peers)
      ∙ index_from-has_reached core.match_index i node 0 0 core.peers nz r)
]
  where
    found : (o : Option ℕ) → leb i (match_at core o) ≡ leb i (match_found core.match_index o)
    found none = refl
    found (some k) = refl

acks_role-reached_voters :
    (role : ℕ) (core : Core) (i : ℕ) (acked : ℕ → Bool) (j : ℕ) (ms : List Member)
    → ((k : ℕ) (m : Member)
        → get_elem? ms k ≡ some m
        → acked (j + k) ≡ has_reached core.match_index i m.node_id 0 core.peers)
    → acks_role role acked j ms ≡ reached_voters role core i ms
unfolding acks_role reached_voters
acks_role-reached_voters role core i acked j [] h = refl
acks_role-reached_voters role core i acked j (m ∷ ms) h =
    let z : j + 0 ≡ j = omega arith in
    let first : acked j ≡ has_reached core.match_index i m.node_id 0 core.peers =
      ap acked (sym z) ∙ h 0 m refl in
    let rest =
      acks_role-reached_voters role core i acked (j + 1) ms
        (λ k n e. ap acked (omega arith) ∙ h (suc k) n e) in
    ground (arith, first, rest)

-- The code's commit quorum is one of the voters that have the index.
pub core_match_quorum-MostReached :
    (core : Core) (i : ℕ)
    → i ≢ 0
    → IsLeading core
    → (core_match_quorum core i ≡ true)
      ↔ (MostReached old_voter core i × MostReached new_voter core i)
unfolding core_match_quorum
core_match_quorum-MostReached core i nz v = (
  (λ h.
      let q = (match_quorum-Majority (membership core) (membership_matches core) i).0 h in
      ((q.2.0, omega (arith, q, counts old_voter)), (q.3.0, omega (arith, q, counts new_voter)))),
  λ h. (match_quorum-Majority (membership core) (membership_matches core) i).1 (
    nz,
    v.members_fit,
    (h.0.0, omega (arith, h, counts old_voter)),
    (h.1.0, omega (arith, h, counts new_voter)),
  ),
)
  where
    acked : ℕ → Bool
    acked = reached (membership_matches core) i

    one :
        (k : ℕ) (m : Member)
        → get_elem? (membership core).members k ≡ some m
        → acked (0 + k) ≡ has_reached core.match_index i m.node_id 0 core.peers
    one k m e =
        let z : 0 + k ≡ k = omega arith in
        ap acked z
        ∙ ap (λ (o : Option Member). leb i (match_of_member core o)) e
        ∙ match_at-has_reached core i m.node_id nz v.peers_rise

    counts :
        (role : ℕ)
        → acks_role role acked 0 (membership core).members
          ≡ reached_voters role core i (membership core).members
    counts role = acks_role-reached_voters role core i acked 0 (membership core).members one
