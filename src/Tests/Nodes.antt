-- ===== src/Tests/Nodes.antt =====
-- A node of three, and a message to it.
use turboraft.Prelude.{ℕ, ◌-◌, true, false, [], ◌∷◌}
use turboraft.Conf.{Conf, final_phase}
use turboraft.Log.{Log}
use turboraft.Core.{Core, Ready, Message, Role, follower, MessageType}
use turboraft.Core.Window.{reset}
use turboraft.Tests.Logs.{command}

abbrev pub three : Conf
three = record {
  phase = final_phase;
  transition_id = 1;
  members =
      record { node_id = 1; roles = 3 }
      ∷ record { node_id = 2; roles = 3 }
      ∷ record { node_id = 3; roles = 3 }
      ∷ [];
}

-- Entries 1 to 4; the last three are of term 2.
abbrev pub four_entries : Log
four_entries = record {
  entries = command 1 1 ∷ command 2 2 ∷ command 3 2 ∷ command 4 2 ∷ [];
  max_entries = 8;
  base_index = 0;
  base_term = 0;
}

-- Node 1 in term 2, with entry 1 committed and applied.
abbrev pub node : Role → Core
node role = record {
  self_id = 1;
  membership_transition = record { committed = three; pending = [] };
  peers = 1 ∷ 2 ∷ 3 ∷ [];
  self_is_voter = true;
  role = role;
  leader_id = 0;
  term = 2;
  voted_for = 0;
  log = four_entries;
  commit_index = 1;
  applied_index = 1;
  apply_admitted_index = 1;
  pending_apply_index = 0;
  campaign_term = 0;
  heartbeat_ticks = 1;
  election_min_ticks = 5;
  election_max_ticks = 10;
  election_timeout_ticks = 7;
  election_elapsed_ticks = 0;
  heartbeat_elapsed_ticks = 0;
  check_quorum_elapsed_ticks = 0;
  recent_active = 0;
  paused_peers = 0;
  leadership_transfer_target = 0;
  leadership_transfer_elapsed_ticks = 0;
  leadership_transfer_sent = false;
  pending_read_context_id = 0;
  pending_reads = [];
  pending_read_index = 0;
  pending_read_acks = 0;
  waiting_reads = [];
  max_pending_reads = 4;
  pre_votes = 0;
  votes = 0;
  next_index = λ _. 5;
  match_index = λ i. 4 - i;
  append_windows = λ _. reset true;
  max_inflight_append_requests = 4;
  ready_outstanding = false;
  in_call = false;
}

abbrev pub no_ready : Ready
no_ready = record {
  message_capacity = 8;
  messages = [];
  hard_state_changed = false;
  term = 0;
  voted_for = 0;
  role_changed = false;
  role = follower;
  log_changed = false;
  log_truncate_from = 0;
  log_entries = [];
  commit_changed = false;
  commit_index = 0;
  committed_entries = [];
  read_states = [];
  snapshot_requests = [];
}

abbrev pub message : MessageType → ℕ → Message
message type from = record {
  type = type;
  from = from;
  to = 1;
  term = 2;
  campaign_term = 3;
  last_log_index = 4;
  last_log_term = 2;
  leader_commit = 3;
  previous_log_index = 1;
  previous_log_term = 1;
  match_index = 0;
  reject_hint = 0;
  entries = [];
  granted = true;
  context_id = 0;
}
