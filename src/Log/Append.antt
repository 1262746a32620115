-- ===== src/Log/Append.antt =====
-- src/core/raft_log.c: entries of this node's own term. A proposal's bytes are a list, whose length is
-- `data_length`.
use turboraft.Prelude.{
  ℕ, ◌+◌, ◌-◌, Bool, true, false, ◌||◌, not, List, [], ◌∷◌, ◌++◌, ltb, leb, ◌==◌, if◌then◌else◌,
  length,
}
use turboraft.Status.{einval, enospc, Result, ok, err, ◌>>=◌, ◌>>◌, stl_status_to_error}
use turboraft.Conf.{Conf, add64}
use turboraft.Entry.{Entry, max_entry_bytes, entry_encode}
use turboraft.Vec.{Vec}
use turboraft.Log.{Log, count, last_index}

pub record Proposal : Type 0 where
  pub command_id : ℕ
  pub payload : List ℕ

abbrev pub max_proposal_batch : ℕ
max_proposal_batch = 16

abbrev pub command_entry : ℕ → ℕ → Proposal → Entry
command_entry index term proposal = record {
  index = index;
  term = term;
  command_id = proposal.command_id;
  data_length = length proposal.payload;
  payload = proposal.payload;
}

unfoldable pub proposal_valid : Proposal → Bool
proposal_valid proposal =
    not (proposal.command_id == 0 || ltb max_entry_bytes (length proposal.payload))

unfoldable pub proposals_valid : List Proposal → Bool
proposals_valid [] = true
proposals_valid (p ∷ ps) = if not (proposal_valid p) then false else proposals_valid ps

-- `first_index + index`
unfoldable pub batch_entries : ℕ → ℕ → ℕ → List Proposal → List Entry
batch_entries first_index i term [] = []
batch_entries first_index i term (p ∷ ps) =
    command_entry (add64 first_index i) term p ∷ batch_entries first_index (i + 1) term ps

module _ (v : Vec) where
  unfoldable pub append_local : Log → ℕ → Proposal → Result (Entry × Log)
  append_local log term proposal =
      if term == 0 || proposal.command_id == 0
      then err einval
      else if ltb max_entry_bytes (length proposal.payload) || leb log.max_entries (count log)
      then err enospc
      else (do
        let entry = command_entry (add64 (last_index log) 1) term proposal
        stl_status_to_error (v.push (count log))
        ok (entry, record log { entries = log.entries ++ entry ∷ [] }))

  -- The entries that `out_entries` points at, and the new log.
  unfoldable pub append_local_batch : Log → ℕ → List Proposal → Result (List Entry × Log)
  unfolding proposals_valid
  append_local_batch log term proposals =
      if term == 0 || length proposals == 0 || ltb max_proposal_batch (length proposals)
      then err einval
      else if ltb log.max_entries (count log)
          || ltb (log.max_entries - count log) (length proposals)
      then err enospc
      else if not (proposals_valid proposals)
      then err einval
      else (do
        let added = batch_entries (add64 (last_index log) 1) 0 term proposals
        stl_status_to_error (v.resize (count log) (count log + length proposals))
        ok (added, record log { entries = log.entries ++ added }))

  unfoldable pub append_configuration : Log → ℕ → Conf → Result (Entry × Log)
  append_configuration log term configuration =
      if term == 0 then err einval else if leb log.max_entries (count log) then err enospc else (do
        entry ← entry_encode configuration (add64 (last_index log) 1) term
        stl_status_to_error (v.push (count log))
        ok (entry, record log { entries = log.entries ++ entry ∷ [] }))

-- The index of `entries[proposal_count - 1]`.
unfoldable pub last_entry_index : ℕ → List Entry → ℕ
last_entry_index previous [] = previous
last_entry_index previous (e ∷ es) = last_entry_index e.index es
