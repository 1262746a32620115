-- ===== src/Log/Held.antt =====
-- Which entries a log of src/core/raft_log.c holds.
use turboraft.Prelude.{
  ℕ, ◌+◌, ◌-◌, ◌≤◌, ◌<◌, ◌≡◌, ◌⊎◌, ◌↔◌, inl, inr, true, some, ◌==◌, length, get_elem?,
  get_elem?_beyond, le_or_lt, arith, Bool-cases, Option-cases,
}
use turboraft.Conf.{u64_max}
use turboraft.Entry.{Entry}
use turboraft.Log.{Log, get, last_index, log_matches}

-- A log holds an entry of a term at an index.
abbrev pub HoldsOf : Log → ℕ → ℕ → Type 0
HoldsOf log index term =
    (log.base_index < index)
    × (e : Entry) × (get_elem? log.entries (index - log.base_index - 1) ≡ some e)
    × (e.term ≡ term)

-- The compacted prefix of a log ends with an index and a term, or the log holds the entry.
abbrev pub HasEntry : Log → ℕ → ℕ → Type 0
HasEntry log index term =
    ((index ≡ log.base_index) × (term ≡ log.base_term)) ⊎ HoldsOf log index term

pub log_matches-HasEntry :
    (log : Log) (index term : ℕ)
    → log.base_index + length log.entries ≤ u64_max
    → (log_matches log index term ≡ true) ↔ HasEntry log index term
unfolding log_matches get last_index
log_matches-HasEntry log index term fits = (
  (λ m. elim (Bool-cases (index == log.base_index)) [
    | inl b ↦ inl (ground (arith, b), ground (arith, m, b))
    | inr nb ↦ elim (Option-cases (get_elem? log.entries (index - log.base_index - 1))) [
      | inl miss ↦ absurd (ground (arith, m, nb, miss))
      | inr (e, at) ↦ inr (ground (arith, m, nb), e, at, ground (arith, m, nb, at))
    ]
  ]),
  back,
)
  where
    back : HasEntry log index term → log_matches log index term ≡ true
    back (inl (i, t)) = ground (arith, i, t)
    back (inr (above, e, at, t)) =
        elim (le_or_lt (length log.entries) (index - log.base_index - 1)) [
          | inl beyond ↦
              let miss = get_elem?_beyond log.entries (index - log.base_index - 1) beyond in
              absurd (ground (arith, at, miss))
          | inr within ↦ ground (arith, above, at, t, within, fits)
        ]
