-- ===== src/Runtime/Trace.antt =====
-- What the calls of a runtime's callbacks have in common.
use turboraft.Prelude.{
  ℕ, zero, suc, ◌+◌, ◌≡◌, refl, sym, subst, Bool, true, false, not, ◌&&◌, List, [], ◌∷◌, ◌==◌,
  if◌then◌else◌, length, take, drop,
}
use turboraft.Calls.{on_error, ◌▸◌, done, Ends, Ends-then, Ends-if, Ends-mono, Ends-elim}
use turboraft.Status.{Error, Result, ok, err, einval, ebusy}
use turboraft.Entry.{Entry, is_configuration}
use turboraft.Core.{Ready, Message, SnapshotRequest}
use turboraft.Core.Apply.{ack_ready, ack_applied, advance}
use turboraft.Host.{
  Effect, Stage, core_advance, complete, enqueue, enqueue_snapshot, apply_batch, transport_send,
  state_machine_apply, History, Host,
}
use turboraft.Runtime.{
  Work, Step, at_stage, fail, clear_apply_block, or_clear, ack_entries, ack_applied_range,
  ack_ready_prefix,
}
use turboraft.Runtime.Io.{call, attempt, send_messages, send_requests}
use turboraft.Runtime.Deliver.{
  command_prefix, applied_all, acknowledge_applied, acknowledge_ready, refused, block_at,
  apply_round, apply_loop, apply_from, is_busy,
}
use turboraft.Runtime.Process.{advance_after_apply, send_all, apply_committed}

-- A step that leaves the history behind in which `I` holds, whatever it returns.
abbrev pub Leaves : (History → Type 0) → Step → Type 0
Leaves I = Ends (λ (w : Work). I w.history) (λ e w. I w.history)

-- A step that makes no call, and whose error is a fault.
abbrev pub Quiet : History → Step → Type 0
Quiet h = Ends (λ (w : Work). w.history ≡ h) (λ e w. (w.history ≡ h) × (w.runtime.faulted ≡ true))

or_clear-Quiet : (h : History) (x : Step) → Quiet h x → Quiet h (or_clear x)
unfolding Ends or_clear clear_apply_block
or_clear-Quiet h (ok u, w) q = q
or_clear-Quiet h (err e, w) q = q

fail-Quiet :
    (h : History) (stage : Stage) (e : Error) (w : Work) → w.history ≡ h → Quiet h (fail stage e w)
unfolding Ends fail
fail-Quiet h stage e w q = (q, refl)

done-Quiet : (w : Work) → Quiet w.history (done w)
unfolding Ends
done-Quiet w = refl

elim-Quiet :
    {A : Type 0} (h : History) (r : Result A) (f : Error → Step) (g : A → Step)
    → ((e : Error) → Quiet h (f e))
    → ((a : A) → Quiet h (g a))
    → Quiet h (elim r as (λ _. Step) [ err e ↦ f e | ok a ↦ g a ])
elim-Quiet h r f g k l =
    Ends-elim (λ (w : Work). w.history ≡ h)
      (λ e (w : Work). (w.history ≡ h) × (w.runtime.faulted ≡ true)) r f g (λ e _. k e) (λ a _. l a)

ack_entries-Quiet : (entries : List Entry) (w : Work) → Quiet w.history (ack_entries entries w)
unfolding ack_entries
ack_entries-Quiet [] w = done-Quiet w
ack_entries-Quiet (entry ∷ entries) w =
    elim-Quiet w.history (ack_applied entry.index w.runtime.core) _ _
      (λ e. fail-Quiet w.history core_advance e w refl) (λ c. ack_entries-Quiet entries _)

ack_ready_prefix-Quiet :
    (n : ℕ) (entries : List Entry) (w : Work) → Quiet w.history (ack_ready_prefix n entries w)
unfolding ack_ready_prefix ack_applied_range
ack_ready_prefix-Quiet n entries w =
    elim-Quiet w.history (ack_ready n w.runtime.core) _ _
      (λ e. fail-Quiet w.history core_advance e (at_stage core_advance w) refl)
      (λ c. ack_entries-Quiet entries _)

Quiet-if :
    (h : History) (b : Bool) (x y : Step) → Quiet h x → Quiet h y → Quiet h (if b then x else y)
Quiet-if h true x y k l = k
Quiet-if h false x y k l = l

pub acknowledge_applied-Quiet :
    (acknowledged : Bool) (entries : List Entry) (w : Work)
    → Quiet w.history (acknowledge_applied acknowledged entries w)
unfolding acknowledge_applied ack_applied_range
acknowledge_applied-Quiet acknowledged entries w =
    Quiet-if w.history acknowledged _ _
      (Ends-then (λ (w' : Work). w'.history ≡ w.history) (λ w'. w'.history ≡ w.history)
        (λ e (w' : Work). (w'.history ≡ w.history) × (w'.runtime.faulted ≡ true))
        (or_clear (ack_applied_range entries w)) _
        (or_clear-Quiet w.history (ack_applied_range entries w) (ack_entries-Quiet entries _))
        (λ w' k. staged w' k))
      (done-Quiet w)
  where
    staged :
        (w' : Work)
        → w'.history ≡ w.history
        → Quiet w.history (done (at_stage state_machine_apply w'))
    staged w' k =
        subst (λ h. Quiet h (done (at_stage state_machine_apply w'))) k
          (done-Quiet (at_stage state_machine_apply w'))

pub acknowledge_ready-Quiet :
    (acknowledged : Bool) (entries : List Entry) (first : ℕ) (w : Work)
    → Quiet w.history (acknowledge_ready acknowledged entries first w)
unfolding acknowledge_ready
acknowledge_ready-Quiet acknowledged entries first w =
    Quiet-if w.history acknowledged _ _ (done-Quiet w) (
      or_clear-Quiet w.history (ack_ready_prefix (length entries) (take first entries) w)
        (ack_ready_prefix-Quiet (length entries) (take first entries) w))

module _ (I : History → Type 0) where
  pub Leaves-then :
      (x : Step) (f : Work → Step)
      → Leaves I x
      → ((w : Work) → I w.history → Leaves I (f w))
      → Leaves I (x ▸ f)
  Leaves-then x f = Ends-then (λ w. I w.history) (λ w. I w.history) (λ e w. I w.history) x f

  pub Leaves-if : (b : Bool) (x y : Step) → Leaves I x → Leaves I y → Leaves I (if b then x else y)
  Leaves-if b x y h k = Ends-if (λ w. I w.history) (λ e w. I w.history) b x y (λ _. h) (λ _. k)

  pub Leaves-on_error :
      (f : Error → Work → Step) (x : Step)
      → Leaves I x
      → ((e : Error) (w : Work) → I w.history → Leaves I (f e w))
      → Leaves I (on_error f x)
  unfolding Ends
  Leaves-on_error f (ok u, w) h k = h
  Leaves-on_error f (err e, w) h k = k e w h

  -- The acknowledgements make no call.
  pub fail-Leaves : (stage : Stage) (e : Error) (w : Work) → I w.history → Leaves I (fail stage e w)
  unfolding Ends fail
  fail-Leaves stage e w h = h

  here_Leaves : (w : Work) → I w.history → Leaves I (done w)
  unfolding Ends
  here_Leaves w h = h

  elim-Leaves :
      {A : Type 0} (r : Result A) (f : Error → Step) (g : A → Step)
      → ((e : Error) → Leaves I (f e))
      → ((a : A) → Leaves I (g a))
      → Leaves I (elim r as (λ _. Step) [ err e ↦ f e | ok a ↦ g a ])
  elim-Leaves r f g h k =
      Ends-elim (λ w. I w.history) (λ e w. I w.history) r f g (λ e _. h e) (λ a _. k a)

  Quiet-Leaves : (h : History) (x : Step) → Quiet h x → I h → Leaves I x
  Quiet-Leaves h x q i =
      Ends-mono (λ (w : Work). w.history ≡ h) (λ w. I w.history)
        (λ e (w : Work). (w.history ≡ h) × (w.runtime.faulted ≡ true)) (λ e w. I w.history) x
        (λ w e. subst I (sym e) i) (λ c w e. subst I (sym (e.0)) i) q

  acknowledge_applied-Leaves :
      (acknowledged : Bool) (entries : List Entry) (w : Work)
      → I w.history
      → Leaves I (acknowledge_applied acknowledged entries w)
  acknowledge_applied-Leaves acknowledged entries w =
      Quiet-Leaves w.history _ (acknowledge_applied-Quiet acknowledged entries w)

  block_at-Leaves :
      (entries : List Entry) (first : ℕ) (w : Work)
      → I w.history
      → Leaves I (err ebusy, block_at entries first w)
  unfolding Ends block_at
  block_at-Leaves entries first w h = h

  pub refused-Leaves :
      (entries : List Entry) (first : ℕ) (acknowledged : Bool) (e : Error) (w : Work)
      → I w.history
      → Leaves I (refused entries first acknowledged e w)
  unfolding refused clear_apply_block
  refused-Leaves entries first acknowledged e w h =
      Leaves-then (acknowledge_ready acknowledged entries first w) _
        (Quiet-Leaves w.history _ (acknowledge_ready-Quiet acknowledged entries first w) h)
        (λ w' k.
          Leaves-if (is_busy e) _ _ (block_at-Leaves entries first w' k)
            (fail-Leaves state_machine_apply e (clear_apply_block w') k))

  applied_all-Leaves :
      (entries : List Entry) (acknowledged : Bool) (w : Work)
      → I w.history
      → Leaves I (applied_all entries acknowledged w)
  unfolding applied_all Ends clear_apply_block
  applied_all-Leaves entries acknowledged w h =
      either (not (length entries == 0) && not acknowledged) _ w h h
    where
      either : (b : Bool) (x y : Work) → I x.history → I y.history → I (if b then x else y).history
      either true x y h k = h
      either false x y h k = k

  pub advance_after_apply-Leaves : (w : Work) → I w.history → Leaves I (advance_after_apply w)
  unfolding advance_after_apply
  advance_after_apply-Leaves w h =
      elim-Leaves (advance w.runtime.core) _ _
        (λ e. fail-Leaves core_advance e (at_stage core_advance w) h)
        (λ c.
          here_Leaves (at_stage complete (record w { runtime = record (w.runtime) { core = c } }))
            h)

-- `I` outlives every call that hands something out.
module _ (host : Host) (I : History → Type 0)
    (keeps : (h : History) (e : Effect) → I h → I ((e, host.answer h e) ∷ h)) where
  call-Leaves : (e : Effect) (w : Work) → I w.history → Leaves I (call host e w)
  unfolding Ends call
  call-Leaves e w h = ended (host.answer w.history e) (keeps w.history e h)
    where
      ended :
          (r : Result (Unit {0}))
          → I ((e, host.answer w.history e) ∷ w.history)
          → Leaves I (r, record w { history = (e, host.answer w.history e) ∷ w.history })
      ended (ok u) k = k
      ended (err c) k = k

  attempt-Leaves :
      (stage : Stage) (e : Effect) (w : Work) → I w.history → Leaves I (attempt host stage e w)
  unfolding attempt
  attempt-Leaves stage e w h =
      Leaves-on_error I (fail stage) _ (call-Leaves e (at_stage stage w) h)
        (λ c w' k. fail-Leaves I stage c w' k)

  send_messages-Leaves :
      (messages : List Message) (w : Work) → I w.history → Leaves I (send_messages host messages w)
  unfolding send_messages
  send_messages-Leaves [] w h = here_Leaves I w h
  send_messages-Leaves (m ∷ messages) w h =
      Leaves-then I (attempt host transport_send (enqueue m) w) _
        (attempt-Leaves transport_send (enqueue m) w h) (λ w' k. send_messages-Leaves messages _ k)

  send_requests-Leaves :
      (requests : List SnapshotRequest) (w : Work)
      → I w.history
      → Leaves I (send_requests host requests w)
  unfolding send_requests
  send_requests-Leaves [] w h = here_Leaves I w h
  send_requests-Leaves (r ∷ requests) w h =
      Leaves-if I (not host.has_enqueue_snapshot) _ _ (fail-Leaves I transport_send einval w h) (
        Leaves-then I (attempt host transport_send (enqueue_snapshot r) w) _
          (attempt-Leaves transport_send (enqueue_snapshot r) w h)
          (λ w' k. send_requests-Leaves requests _ k))

  pub send_all-Leaves : (ready : Ready) (w : Work) → I w.history → Leaves I (send_all host ready w)
  unfolding send_all
  send_all-Leaves ready w h =
      Leaves-if I (not (length ready.messages == 0) && not host.has_enqueue) _ _
        (fail-Leaves I transport_send einval w h)
        (Leaves-then I (send_messages host ready.messages (at_stage transport_send w)) _
          (send_messages-Leaves ready.messages _ h)
          (λ w' k. send_requests-Leaves ready.snapshot_requests w' k))

  apply_round-Leaves :
      (entries : List Entry) (first : ℕ) (acknowledged : Bool) (next : ℕ → Work → Step)
      (rest : List Entry) (w : Work)
      → ((n : ℕ) (w' : Work) → I w'.history → Leaves I (next n w'))
      → I w.history
      → Leaves I (apply_round host entries first acknowledged next rest w)
  unfolding apply_round
  apply_round-Leaves entries first acknowledged next [] w more h =
      applied_all-Leaves I entries acknowledged w h
  apply_round-Leaves entries first acknowledged next (e ∷ es) w more h =
      let batch = command_prefix (e ∷ es) in
      let handed =
        on_error (refused entries first acknowledged) (call host (apply_batch batch) w) in
      Leaves-if I (is_configuration e) _ _
        (Leaves-then I (acknowledge_applied acknowledged (e ∷ []) w) _
          (acknowledge_applied-Leaves I acknowledged (e ∷ []) w h) (more 1))
        (Leaves-if I (not host.has_apply_batch) _ _ (fail-Leaves I state_machine_apply einval w h) (
          Leaves-then I (handed ▸ acknowledge_applied acknowledged batch) _
            (Leaves-then I handed _
              (Leaves-on_error I (refused entries first acknowledged) _
                (call-Leaves (apply_batch batch) w h) (refused-Leaves I entries first acknowledged))
              (acknowledge_applied-Leaves I acknowledged batch))
            (more (length batch))))

  apply_loop-Leaves :
      (fuel : ℕ) (entries : List Entry) (first : ℕ) (acknowledged : Bool) (w : Work)
      → I w.history
      → Leaves I (apply_loop host fuel entries first acknowledged w)
  unfolding apply_loop
  apply_loop-Leaves zero entries first acknowledged w h =
      applied_all-Leaves I entries acknowledged w h
  apply_loop-Leaves (suc fuel) entries first acknowledged w h =
      apply_round-Leaves entries first acknowledged _ (drop first entries) w
        (λ n w' k. apply_loop-Leaves fuel entries (first + n) acknowledged w' k) h

  pub apply_committed-Leaves :
      (ready : Ready) (w : Work) → I w.history → Leaves I (apply_committed host ready w)
  unfolding apply_committed apply_from
  apply_committed-Leaves ready w h =
      Leaves-if I (not (length ready.committed_entries == 0)) _ _
        (apply_loop-Leaves (length ready.committed_entries) ready.committed_entries 0 false
          (at_stage state_machine_apply w) h)
        (here_Leaves I w h)
