-- ===== src/Log/Reconcile.antt =====
-- `tr_raft_log_reconcile` of src/core/raft_log.c: a leader's entries replace what conflicts with them.
pub mod Merge
pub mod Store
pub mod Refine
use turboraft.Prelude.{
  ℕ, zero, suc, ◌+◌, ◌-◌, ◌%◌, ◌^◌, Bool, true, false, ◌||◌, ◌&&◌, not, Option, none, some, List,
  [], ◌∷◌, ◌++◌, ltb, leb, ◌==◌, if◌then◌else◌, length,
}
use turboraft.Status.{Error, einval, eproto, enospc, Result, ok, err, stl_status_to_error}
use turboraft.Conf.{Conf, u64_max, add64}
use turboraft.Entry.{Entry, max_entry_bytes, read_bytes, entry_decode}
use turboraft.Vec.{Vec, resized, write_at}
use turboraft.Log.{Log, count, last_index, get, log_matches}

unfoldable pub bytes_equal : List ℕ → List ℕ → Bool
bytes_equal [] [] = true
bytes_equal [] (b ∷ bs) = false
bytes_equal (a ∷ as') [] = false
bytes_equal (a ∷ as') (b ∷ bs) = if a == b then bytes_equal as' bs else false

unfoldable pub entry_equal : Entry → Entry → Bool
unfolding bytes_equal read_bytes
entry_equal left right =
    left.index == right.index
    && left.term == right.term
    && left.command_id == right.command_id
    && left.data_length == right.data_length
    && bytes_equal (read_bytes left.data_length left.payload)
        (read_bytes left.data_length right.payload)

abbrev pub term_of : Option Entry → ℕ
term_of none = 0
term_of (some e) = e.term

-- The loop of `tr_raft_log_reject_hint`; its fuel is the index itself.
unfoldable pub hint_loop : ℕ → Log → ℕ → ℕ → ℕ
hint_loop zero log conflict_term previous_index = previous_index
hint_loop (suc fuel) log conflict_term previous_index =
    let rest = hint_loop fuel log conflict_term (previous_index - 1) in
    if ltb (add64 log.base_index 1) previous_index
    then (if not (term_of (get log (previous_index - 1)) == conflict_term)
        then previous_index
        else rest)
    else previous_index

unfoldable pub reject_hint : Log → ℕ → ℕ
unfolding hint_loop
reject_hint log previous_index =
    if ltb (last_index log) previous_index
    then add64 (last_index log) 1
    else if leb previous_index log.base_index
    then add64 log.base_index 1
    else hint_loop previous_index log (term_of (get log previous_index)) previous_index

-- `tr_raft_log_reconcile_result_t`, whose field `reject_hint` is `hint` here.
pub record Reconciled : Type 0 where
  pub matched : Bool
  pub changed : Bool
  pub hint : ℕ
  pub truncate_from : ℕ
  pub append_from : ℕ
  pub append_count : ℕ

-- How the loop over the incoming entries ends: `first_change` stays behind the last one, or it is
-- an offset, with whether a conflict is truncated and with the entries from there on.
pub data Scan : Type 0 where
  fails : Error → Scan
  unchanged : Scan
  changes : ℕ → Bool → Entry → List Entry → Scan

unfoldable pub entry_in_place : Entry → ℕ → Bool
entry_in_place entry expected_index = not (
    not (entry.index == expected_index) || entry.term == 0 || ltb max_entry_bytes entry.data_length)

abbrev pub decodes : Result Conf → Bool
decodes (ok _) = true
decodes (err _) = false

unfoldable pub scan : Log → ℕ → ℕ → List Entry → Scan
unfolding entry_in_place entry_equal
scan log previous_index i [] = unchanged
scan log previous_index i (e ∷ es) =
    let expected_index = add64 (add64 previous_index i) 1 in
    let rest = scan log previous_index (i + 1) es in
    if not (entry_in_place e expected_index)
    then fails einval
    else if e.command_id == 0 && not (decodes (entry_decode e))
    then fails eproto
    else elim (get log expected_index) [
      | none ↦ changes i false e es
      | some local ↦
          if not (local.term == e.term)
          then changes i true e es
          else if not (entry_equal local e)
          then fails eproto
          else rest
    ]

abbrev pub zero_entry : Entry
zero_entry = record { index = 0; term = 0; command_id = 0; data_length = 0; payload = [] }

-- `incoming[index].index - base_index - 1U`
abbrev pub offset : ℕ → ℕ → ℕ
offset base_index index = (index + 2 ^ 64 + 2 ^ 64 - base_index - 1) % 2 ^ 64

-- The loop that stores the entries; `none` is a write through a null pointer.
unfoldable pub write_all : ℕ → List Entry → List Entry → Option (List Entry)
write_all base_index [] entries = some entries
write_all base_index (e ∷ es) entries = elim (write_at (offset base_index e.index) e entries) [
  | none ↦ none
  | some entries' ↦ write_all base_index es entries'
]

-- What a call does: a write through a null pointer, or a result and the new log.
pub data Outcome : Type 0 where
  undefined : Outcome
  returns : Result (Reconciled × Log) → Outcome

abbrev pub kept : Log → Outcome
kept log = returns (
    ok (
      record {
        matched = true;
        changed = false;
        hint = 0;
        truncate_from = 0;
        append_from = 0;
        append_count = 0;
      },
      log,
    ))

abbrev pub stored : Log → Bool → Entry → List Entry → Option (List Entry) → Outcome
stored log truncates e es none = undefined
stored log truncates e es (some entries) = returns (
    ok (
      record {
        matched = true;
        changed = true;
        hint = 0;
        truncate_from = (if truncates then e.index else 0);
        append_from = e.index;
        append_count = suc (length es);
      },
      record log { entries = entries },
    ))

module _ (v : Vec) where
  -- The part behind the loop, where an entry changes the log.
  unfoldable pub replace : Log → ℕ → ℕ → ℕ → Bool → Entry → List Entry → Outcome
  replace log previous_index protected_index first_change truncates e es =
      let retained = previous_index - log.base_index + first_change in
      if truncates && leb e.index protected_index
      then returns (err eproto)
      else if ltb log.max_entries retained || ltb (log.max_entries - retained) (suc (length es))
      then returns (err enospc)
      else elim (stl_status_to_error (v.resize (count log) (retained + suc (length es)))) [
        | err s ↦ returns (err s)
        | ok _ ↦ stored log truncates e es (
            write_all log.base_index (e ∷ es)
              (resized zero_entry (retained + suc (length es)) log.entries))
      ]

  unfoldable pub reconcile : Log → ℕ → ℕ → List Entry → ℕ → Outcome
  unfolding replace
  reconcile log previous_index previous_term incoming protected_index =
      if ltb (u64_max - previous_index) (length incoming)
      then returns (err einval)
      else if not (log_matches log previous_index previous_term)
      then returns (
          ok (
            record {
              matched = false;
              changed = false;
              hint = reject_hint log previous_index;
              truncate_from = 0;
              append_from = 0;
              append_count = 0;
            },
            log,
          ))
      else elim (scan log previous_index 0 incoming) [
        | fails s ↦ returns (err s)
        | unchanged ↦ kept log
        | changes first_change truncates e es ↦
            replace log previous_index protected_index first_change truncates e es
      ]
