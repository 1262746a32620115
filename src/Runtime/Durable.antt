-- ===== src/Runtime/Durable.antt =====
-- The order of a runtime's calls: what is persisted, and what leaves the node.
use turboraft.Prelude.{
  ◌≡◌, refl, Bool, true, false, not, ◌&&◌, ◌||◌, [], ◌∷◌, ◌==◌, if◌then◌else◌, length, arith,
}
use turboraft.Calls.{on_error, ◌▸◌, done, Ends, Ends-then, Ends-if, Ends-mono}
use turboraft.Status.{Error, Result, ok, err}
use turboraft.Core.{Ready}
use turboraft.Host.{
  Effect, Stage, begin, commit, write_hard_state, truncate_log, append_log, write_commit_index,
  enqueue, enqueue_snapshot, apply_batch, storage_begin, storage_hard_state, storage_truncate,
  storage_append, storage_commit_index, storage_commit, History, Host, ready_needs_storage,
  first_read_state,
}
use turboraft.Runtime.{Runtime, Work, Step, at_stage, fail, no_result}
use turboraft.Runtime.Io.{call, attempt, store, roll_back, persist}
use turboraft.Runtime.Process.{
  persist_needed, send_all, apply_committed, advance_after_apply, process,
}
use turboraft.Runtime.Trace.{
  Leaves, Leaves-then, Leaves-on_error, fail-Leaves, send_all-Leaves, apply_committed-Leaves,
  advance_after_apply-Leaves,
}

-- An effect that leaves the node, or changes the state machine.
unfoldable pub is_outward : Effect → Bool
is_outward (enqueue _) = true
is_outward (enqueue_snapshot _) = true
is_outward (apply_batch _) = true
is_outward _ = false

unfoldable pub is_commit : Effect × Result (Unit {0}) → Bool
is_commit (commit, ok _) = true
is_commit _ = false

-- The storage has committed a transaction.
unfoldable pub is_durable : History → Bool
unfolding is_commit
is_durable [] = false
is_durable (c ∷ history) = is_commit c || is_durable history

-- Nothing has left the node but behind a transaction that the storage has committed.
unfoldable pub DurableFirst : History → Type 0
unfolding is_outward
DurableFirst [] = Unit
DurableFirst ((e, r) ∷ history) =
    (is_outward e ≡ true → is_durable history ≡ true) × DurableFirst history

-- Behind a committed transaction, in order.
abbrev IsPersisted : History → Type 0
IsPersisted h = DurableFirst h × (is_durable h ≡ true)

IsPersisted-keeps :
    (host : Host) (h : History) (e : Effect)
    → IsPersisted h
    → IsPersisted ((e, host.answer h e) ∷ h)
unfolding DurableFirst is_durable
IsPersisted-keeps host h e p = (((λ _. p.1), p.0), ground (arith, p.1))

module _ (host : Host) where
  stored_Leaves :
      (e : Effect) (w : Work)
      → is_outward e ≡ false
      → DurableFirst w.history
      → Leaves DurableFirst (call host e w)
  unfolding call Ends DurableFirst
  stored_Leaves e w q h = ended (host.answer w.history e)
    where
      ended :
          (r : Result (Unit {0}))
          → Leaves DurableFirst (r, record w { history = (e, host.answer w.history e) ∷ w.history })
      ended (ok u) = ((λ o. absurd (cc)), h)
      ended (err c) = ((λ o. absurd (cc)), h)

  roll_back-Leaves :
      (stage : Stage) (e : Error) (w : Work)
      → DurableFirst w.history
      → Leaves DurableFirst (roll_back host stage e w)
  unfolding roll_back fail Ends call DurableFirst is_outward
  roll_back-Leaves stage e w h = ((λ o. cc), h)

  store-Leaves :
      (stage : Stage) (e : Effect) (w : Work)
      → is_outward e ≡ false
      → DurableFirst w.history
      → Leaves DurableFirst (store host stage e w)
  unfolding store
  store-Leaves stage e w q h =
      Leaves-on_error DurableFirst (roll_back host stage) _ (stored_Leaves e (at_stage stage w) q h)
        (roll_back-Leaves stage)

  attempt-begin-Leaves :
      (w : Work) → DurableFirst w.history → Leaves DurableFirst (attempt host storage_begin begin w)
  unfolding attempt is_outward
  attempt-begin-Leaves w h =
      Leaves-on_error DurableFirst (fail storage_begin) _
        (stored_Leaves begin (at_stage storage_begin w) refl h)
        (fail-Leaves DurableFirst storage_begin)

  optional-Leaves :
      (b : Bool) (stage : Stage) (e : Effect) (w : Work)
      → is_outward e ≡ false
      → DurableFirst w.history
      → Leaves DurableFirst (if b then store host stage e w else done w)
  unfolding Ends
  optional-Leaves true stage e w q h = store-Leaves stage e w q h
  optional-Leaves false stage e w q h = h

  store_commit_Ends :
      (w : Work)
      → DurableFirst w.history
      → Ends
          (λ (w : Work). IsPersisted w.history)
          (λ e w. DurableFirst w.history)
          (store host storage_commit commit w)
  unfolding store call roll_back fail Ends DurableFirst is_durable is_commit is_outward
  store_commit_Ends w h = ended (host.answer w.history commit)
    where
      ended :
          (r : Result (Unit {0}))
          → Ends
              (λ (w : Work). IsPersisted w.history)
              (λ e w. DurableFirst w.history)
              (on_error
                (roll_back host storage_commit)
                (r, record (at_stage storage_commit w) { history = (commit, r) ∷ w.history }))
      ended (ok u) = (((λ o. cc), h), refl)
      ended (err c) = ((λ o. cc), ((λ o. cc), h))

  persist-Ends :
      (ready : Ready) (w : Work)
      → DurableFirst w.history
      → Ends
          (λ (w : Work). IsPersisted w.history)
          (λ e w. DurableFirst w.history)
          (persist host ready w)
  unfolding persist is_outward Ends
  persist-Ends ready w h =
      Ends-then IsPersisted' IsPersisted' Durable' _ _
        (Ends-then Behind IsPersisted' Durable' _ _
          (Leaves-then DurableFirst _ _
            (Leaves-then DurableFirst _ _
              (Leaves-then DurableFirst _ _
                (Leaves-then DurableFirst _ _ (attempt-begin-Leaves w h) (λ w.
                  optional-Leaves ready.hard_state_changed storage_hard_state
                    (write_hard_state ready.term ready.voted_for) w refl))
                (λ w.
                  optional-Leaves (ready.log_changed && not (ready.log_truncate_from == 0))
                    storage_truncate (truncate_log ready.log_truncate_from) w refl))
              (λ w.
                optional-Leaves (ready.log_changed && not (length ready.log_entries == 0))
                  storage_append (append_log ready.log_entries) w refl))
            (λ w.
              optional-Leaves ready.commit_changed storage_commit_index
                (write_commit_index ready.commit_index) w refl))
          store_commit_Ends)
        (λ w p. marked w p)
    where
      Behind : Work → Type 0
      Behind w = DurableFirst w.history

      IsPersisted' : Work → Type 0
      IsPersisted' w = IsPersisted w.history

      Durable' : Error → Work → Type 0
      Durable' e w = DurableFirst w.history

      marked :
          (w : Work)
          → IsPersisted w.history
          → Ends IsPersisted' Durable'
              (done (record w { result = record (w.result) { durable = true } }))
      marked w p = p

  persist_needed-Ends :
      (ready : Ready) (w : Work)
      → ready_needs_storage ready ≡ true
      → DurableFirst w.history
      → Ends
          (λ (w : Work). IsPersisted w.history)
          (λ e w. DurableFirst w.history)
          (persist_needed host ready w)
  unfolding persist_needed fail Ends
  persist_needed-Ends ready w q h =
      Ends-if (λ (w : Work). IsPersisted w.history) (λ e w. DurableFirst w.history)
        (not (ready_needs_storage ready)) _ _ (λ n. absurd (ground (arith, n, q)))
        (λ _.
          Ends-if (λ (w : Work). IsPersisted w.history) (λ e w. DurableFirst w.history)
            (not host.storage_complete) _ _ (λ _. h) (λ _. persist-Ends ready w h))

  -- A step behind a committed transaction, in a call that may have failed before.
  weakened :
      (x : Step)
      → Leaves IsPersisted x
      → Ends (λ (w : Work). IsPersisted w.history) (λ e w. DurableFirst w.history) x
  weakened x =
      Ends-mono (λ (w : Work). IsPersisted w.history) (λ w. IsPersisted w.history)
        (λ e w. IsPersisted w.history) (λ e w. DurableFirst w.history) x (λ w p. p) (λ e w p. p.0)

  ordered :
      (ready : Ready) (runtime : Runtime)
      → ready_needs_storage ready ≡ true
      → Ends
          (λ (w : Work). IsPersisted w.history)
          (λ e w. DurableFirst w.history)
          (process host ready runtime [])
  unfolding process fail Ends DurableFirst
  ordered ready runtime q =
      Ends-if P Q runtime.faulted _ _ (λ _. tt)
        (λ _.
          Ends-if P Q runtime.apply_blocked _ _ (λ _. tt)
            (λ _.
              Ends-then P P Q (sent ▸ apply_committed host ready) advance_after_apply
                (Ends-then P P Q sent (apply_committed host ready)
                  (Ends-then P P Q persisted (send_all host ready)
                    (persist_needed-Ends ready (fresh ready runtime) q tt)
                    (λ w p.
                      weakened (send_all host ready w)
                        (send_all-Leaves host IsPersisted (IsPersisted-keeps host) ready w p)))
                  (λ w p.
                    weakened (apply_committed host ready w)
                      (apply_committed-Leaves host IsPersisted (IsPersisted-keeps host) ready w p)))
                (λ w p.
                  weakened (advance_after_apply w) (advance_after_apply-Leaves IsPersisted w p))))
    where
      P : Work → Type 0
      P w = IsPersisted w.history

      Q : Error → Work → Type 0
      Q e w = DurableFirst w.history

      fresh : Ready → Runtime → Work
      fresh ready runtime = record {
        runtime = runtime;
        result = record no_result { read_state = first_read_state ready.read_states };
        history = [];
      }

      persisted : Step
      persisted = persist_needed host ready (fresh ready runtime)

      sent : Step
      sent = persisted ▸ send_all host ready

-- A call of the runtime for a ready value that needs storage hands out a message or a snapshot request,
-- or applies an entry, only behind a transaction that the storage has committed in the same call,
-- whatever the callbacks return and wherever the call ends; where it returns SALTS_OK, there is such a
-- transaction.
pub process-DurableFirst :
    (host : Host) (ready : Ready) (runtime : Runtime)
    → ready_needs_storage ready ≡ true
    → DurableFirst (process host ready runtime []).1.history
      × ((process host ready runtime []).0 ≡ ok tt
          → is_durable (process host ready runtime []).1.history ≡ true)
unfolding Ends
process-DurableFirst host ready runtime q =
    taken (process host ready runtime []) (ordered host ready runtime q)
  where
    taken :
        (x : Step)
        → Ends (λ (w : Work). IsPersisted w.history) (λ e w. DurableFirst w.history) x
        → DurableFirst x.1.history × (x.0 ≡ ok tt → is_durable x.1.history ≡ true)
    taken (ok tt, w) p = (p.0, λ _. p.1)
    taken (err e, w) d = (d, λ z. absurd (ground arith))
