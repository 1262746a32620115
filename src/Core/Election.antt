-- ===== src/Core/Election.antt =====
-- src/core/raft_core.c: roles, elections and votes.
pub mod Frames
pub mod Safety
pub mod Ballot
use turboraft.Prelude.{
  ℕ, ◌+◌, ◌-◌, Bool, true, false, ◌||◌, ◌&&◌, not, Option, none, some, ltb, leb, ◌==◌,
  if◌then◌else◌, test_bit, set_bit, bit,
}
use turboraft.Conf.{u64_max, add64}
use turboraft.Log.{last_index}
use turboraft.Core.{
  Role, follower, pre_candidate, candidate, leader, Message, pre_vote_request, pre_vote_response,
  vote_request, vote_response, Core, Ready, Call, AppendWindow, update,
}
use turboraft.Core.Window.{reset}
use turboraft.Core.Peers.{peer_count, voter_index, known, core_has_quorum, log_is_up_to_date}
use turboraft.Core.Emit.{fresh_message, emit, broadcast, same_role}
use turboraft.Core.Replicate.{broadcast_replication}
use turboraft.Core.Reads.{read_reset_all}

-- `tr_become_follower`, but for the term.
unfoldable pub follow : Core → Core
unfolding read_reset_all
follow core = record (read_reset_all core) {
  role = follower;
  leader_id = 0;
  campaign_term = 0;
  pre_votes = 0;
  votes = 0;
  election_elapsed_ticks = 0;
  heartbeat_elapsed_ticks = 0;
  check_quorum_elapsed_ticks = 0;
  recent_active = 0;
  leadership_transfer_target = 0;
  leadership_transfer_elapsed_ticks = 0;
  leadership_transfer_sent = false;
  append_windows = λ _. reset true;
}

unfoldable pub become_follower : ℕ → Core → Core
unfolding follow
become_follower term core =
    follow (if ltb core.term term then record core { term = term; voted_for = 0 } else core)

-- The state that `tr_become_leader` sets up. The arrays above the peer count stay;
-- adding `u64_max` is the subtraction of 1.
unfoldable pub lead : Core → Core
unfolding read_reset_all
lead core =
    let next = add64 (last_index core.log) 1 in
    let self_index = known (voter_index core core.self_id) in
    record (read_reset_all core) {
      role = leader;
      leader_id = core.self_id;
      campaign_term = 0;
      pre_votes = 0;
      votes = 0;
      election_elapsed_ticks = 0;
      heartbeat_elapsed_ticks = 0;
      check_quorum_elapsed_ticks = 0;
      recent_active = bit self_index;
      leadership_transfer_target = 0;
      leadership_transfer_elapsed_ticks = 0;
      leadership_transfer_sent = false;
      append_windows =
          update (λ i. if ltb i (peer_count core) then reset true else core.append_windows i)
            self_index (reset false);
      next_index = λ i. if ltb i (peer_count core) then next else core.next_index i;
      match_index =
          update (λ i. if ltb i (peer_count core) then 0 else core.match_index i) self_index
            (add64 next u64_max);
    }

unfoldable pub become_leader : Call → Call
unfolding lead
become_leader call = broadcast_replication (record call { core = lead call.core })

unfoldable pub stand : Core → Core
stand core = record core {
  term = core.campaign_term;
  campaign_term = 0;
  role = candidate;
  leader_id = 0;
  voted_for = core.self_id;
  pre_votes = 0;
  votes = bit (known (voter_index core core.self_id));
}

unfoldable pub start_election : Call → Call
unfolding stand
start_election call =
    let core = stand call.core in
    if core_has_quorum core core.votes
    then become_leader (record call { core = core })
    else broadcast vote_request (record call { core = core })

unfoldable pub canvass : Core → Core
canvass core = record core {
  role = pre_candidate;
  leader_id = 0;
  campaign_term = add64 core.term 1;
  pre_votes = bit (known (voter_index core core.self_id));
  votes = 0;
}

unfoldable pub start_pre_vote : Call → Call
unfolding canvass
start_pre_vote call =
    let core = canvass call.core in
    if core_has_quorum core core.pre_votes
    then start_election (record call { core = core })
    else broadcast pre_vote_request (record call { core = core })

unfoldable pub will_pre_vote_win : Core → Message → ℕ → Bool
will_pre_vote_win core message i =
    same_role core.role pre_candidate
    && leb message.term core.term
    && message.campaign_term == core.campaign_term
    && message.granted
    && not (test_bit core.pre_votes i)
    && core_has_quorum core (set_bit core.pre_votes i)

unfoldable pub will_vote_win : Core → Message → ℕ → Bool
will_vote_win core message i =
    same_role core.role candidate
    && message.term == core.term
    && message.granted
    && not (test_bit core.votes i)
    && core_has_quorum core (set_bit core.votes i)

unfoldable pub grants_pre_vote : Core → Message → Bool
grants_pre_vote core request =
    core.self_is_voter
    && not (core.term == u64_max)
    && leb (add64 core.term 1) request.campaign_term
    && log_is_up_to_date core request

unfoldable pub step_pre_vote_request : Message → Call → Call
unfolding grants_pre_vote
step_pre_vote_request request call =
    let core = record (call.core) { campaign_term = request.campaign_term } in
    record {
      core = record core { campaign_term = 0 };
      ready =
          emit core
            (fresh_message core pre_vote_response request.from (grants_pre_vote call.core request))
            call.ready;
    }

unfoldable pub step_pre_vote_response : Message → ℕ → Call → Call
step_pre_vote_response response i call =
    let core = call.core in
    let counted = record core { pre_votes = set_bit core.pre_votes i } in
    if ltb core.term response.term
    then record call { core = become_follower response.term core }
    else if not (same_role core.role pre_candidate)
        || not (response.campaign_term == core.campaign_term)
        || not response.granted
        || test_bit core.pre_votes i
    then call
    else if core_has_quorum counted counted.pre_votes
    then start_election (record call { core = counted })
    else record call { core = counted }

unfoldable pub grants_vote : Core → Message → Bool
grants_vote core request =
    core.self_is_voter
    && request.term == core.term
    && (core.voted_for == 0 || core.voted_for == request.from)
    && log_is_up_to_date core request

abbrev pub caught_up : Core → Message → Core
caught_up core request =
    if ltb core.term request.term then become_follower request.term core else core

unfoldable pub vote : Core → Message → Core
unfolding grants_vote become_follower
vote core request =
    let current = caught_up core request in
    if grants_vote current request
    then record current { voted_for = request.from; election_elapsed_ticks = 0 }
    else current

unfoldable pub step_vote_request : Message → Call → Call
unfolding vote
step_vote_request request call =
    let core = vote call.core request in
    record {
      core = core;
      ready =
          emit core
            (fresh_message core vote_response request.from
              (grants_vote (caught_up call.core request) request))
            call.ready;
    }

unfoldable pub step_vote_response : Message → ℕ → Call → Call
step_vote_response response i call =
    let core = call.core in
    let counted = record core { votes = set_bit core.votes i } in
    if ltb core.term response.term
    then record call { core = become_follower response.term core }
    else if not (same_role core.role candidate)
        || not (response.term == core.term)
        || not response.granted
        || test_bit core.votes i
    then call
    else if core_has_quorum counted counted.votes
    then become_leader (record call { core = counted })
    else record call { core = counted }
