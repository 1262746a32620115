-- ===== src/Log.antt =====
-- src/core/raft_log.c: the log behind a compacted prefix. `Log.Append` has what grows it,
-- `Log.Reconcile` what a leader's entries do to it.
pub mod Append
pub mod Reconcile
pub mod Held
use turboraft.Prelude.{
  ℕ, ◌+◌, ◌-◌, ◌%◌, ◌^◌, Bool, true, false, ◌||◌, ◌&&◌, not, Option, none, some, List, [], ◌∷◌,
  ◌++◌, ltb, leb, ◌==◌, if◌then◌else◌, length, get_elem?, drop,
}
use turboraft.Status.{einval, eproto, Result, ok, err, ◌>>=◌, ◌>>◌, stl_status_to_error}
use turboraft.Conf.{u64_max, add64}
use turboraft.Entry.{Entry}
use turboraft.Vec.{Vec}

pub record Log : Type 0 where
  pub entries : List Entry
  pub max_entries : ℕ
  pub base_index : ℕ
  pub base_term : ℕ

unfoldable pub base_valid : ℕ → ℕ → Bool
base_valid index term = (index == 0 && term == 0) || (not (index == 0) && not (term == 0))

abbrev pub count : Log → ℕ
count log = length log.entries

unfoldable pub last_index : Log → ℕ
last_index log = add64 log.base_index (count log)

unfoldable pub last_term_of : ℕ → List Entry → ℕ
last_term_of base_term [] = base_term
last_term_of base_term (e ∷ entries) = last_term_of e.term entries

unfoldable pub last_term : Log → ℕ
unfolding last_term_of
last_term log = last_term_of log.base_term log.entries

-- `index - base_index - 1` is taken only above the base, so truncated subtraction is exact.
unfoldable pub get : Log → ℕ → Option Entry
unfolding last_index
get log index =
    if leb index log.base_index || ltb (last_index log) index
    then none
    else get_elem? log.entries (index - log.base_index - 1)

abbrev pub has_term : ℕ → Option Entry → Bool
has_term term none = false
has_term term (some e) = e.term == term

-- `tr_raft_log_matches`
unfoldable pub log_matches : Log → ℕ → ℕ → Bool
unfolding get
log_matches log index term =
    if index == log.base_index then term == log.base_term else has_term term (get log index)

module _ (v : Vec) where
  unfoldable pub init : ℕ → ℕ → ℕ → Result Log
  unfolding base_valid
  init max_entries base_index base_term =
      if max_entries == 0
        || not (base_valid base_index base_term)
        || ltb (u64_max - base_index) max_entries
      then err einval
      else (do
        stl_status_to_error (v.init_bytes max_entries)
        stl_status_to_error (v.reserve max_entries)
        ok (record {
          entries = [];
          max_entries = max_entries;
          base_index = base_index;
          base_term = base_term;
        }))

  -- `memmove` of the retained entries to the front.
  abbrev pub moved : List Entry → ℕ → List Entry
  moved entries removed = drop removed entries ++ drop (length entries - removed) entries

  -- The entries have moved where the last resize fails.
  unfoldable pub compact : Log → ℕ → ℕ → Result (Unit {0}) × Log
  compact log index term =
      if leb index log.base_index || term == 0 || ltb (last_index log) index
      then (err einval, log)
      else if not (log_matches log index term)
      then (err eproto, log)
      else (let removed = index - log.base_index in
          elim (stl_status_to_error (v.resize (count log) (count log - removed))) [
            | err e ↦ (err e, record log { entries = moved log.entries removed })
            | ok _ ↦ (
              ok tt,
              record log {
                entries = drop removed log.entries;
                base_index = index;
                base_term = term;
              },
            )
          ])
