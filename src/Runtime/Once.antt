-- ===== src/Runtime/Once.antt =====
-- What a runtime's state machine is given, in `tr_runtime_apply_from`.
use mathlib.Core.List.{append_assoc, append-nil}
use turboraft.Prelude.{
  ℕ, zero, suc, ◌+◌, ◌≤◌, ◌≡◌, ◌∙◌, refl, sym, ap, subst, Bool, true, false, not, ◌&&◌, ◌==◌, List,
  [], ◌∷◌, ◌++◌, if◌then◌else◌, length, drop, arith, length-drop, Bool-cases, inl, inr,
}
use turboraft.Calls.{on_error, ◌▸◌, Ends, Ends-then, Ends-if, Ends-mono}
use turboraft.Status.{Error, ebusy, einval, Result, ok, err}
use turboraft.Entry.{Entry, is_configuration}
use turboraft.Host.{Effect, apply_batch, state_machine_apply, History, Host}
use turboraft.Runtime.{Work, Step, at_stage, fail, clear_apply_block}
use turboraft.Runtime.Io.{call}
use turboraft.Runtime.Deliver.{
  command_prefix, applied_all, acknowledge_applied, acknowledge_ready, refused, block_at,
  apply_round, apply_loop, apply_from, is_busy,
}
use turboraft.Runtime.Trace.{Quiet, acknowledge_applied-Quiet, acknowledge_ready-Quiet}

-- The entries that a call hands over.
unfoldable pub batch_of : Effect × Result (Unit {0}) → List Entry
batch_of (apply_batch entries, ok _) = entries
batch_of _ = []

-- The entries that the state machine has taken, in order.
unfoldable pub taken : History → List Entry
unfolding batch_of
taken [] = []
taken (c ∷ history) = taken history ++ batch_of c

-- The entries that are for the state machine.
unfoldable pub commands : List Entry → List Entry
commands [] = []
commands (e ∷ es) = if is_configuration e then commands es else e ∷ commands es

drop_nil : (n : ℕ) → drop {A = Entry} n [] ≡ []
drop_nil zero = refl
drop_nil (suc n) = refl

drop-add : (m n : ℕ) (entries : List Entry) → drop (m + n) entries ≡ drop n (drop m entries)
drop-add zero n entries = ap (λ k. drop k entries) (omega arith)
drop-add (suc m) n [] = drop_nil (suc m + n) ∙ sym (drop_nil n)
drop-add (suc m) n (e ∷ es) =
    let k : suc m + n ≡ suc (m + n) = omega arith in rw k (drop-add m n es)

commands-prefix :
    (entries : List Entry)
    → commands entries
      ≡ command_prefix entries ++ commands (drop (length (command_prefix entries)) entries)
unfolding commands command_prefix
commands-prefix [] = refl
commands-prefix (e ∷ es) = elim (Bool-cases (is_configuration e)) [
  | inl c ↦ rw c (rw c refl)
  | inr c ↦ rw c (ap (◌∷◌ e) (commands-prefix es))
]

-- Where the call ends with all taken; or what is left is behind the block; or the runtime is faulted.
abbrev pub AllTaken : List Entry → Work → Type 0
AllTaken all w = taken w.history ≡ all

abbrev pub SomeTaken : List Entry → Error → Work → Type 0
SomeTaken all e w =
    (rest : List Entry) × (taken w.history ++ rest ≡ all)
    × (w.runtime.faulted ≡ false
        → (w.runtime.apply_blocked ≡ true)
          × (rest ≡ commands (drop w.runtime.blocked_apply_begin w.runtime.blocked_entries)))

abbrev pub Once : List Entry → Step → Type 0
Once all = Ends (AllTaken all) (SomeTaken all)

-- `rest` has still to be taken.
abbrev Left : List Entry → List Entry → Work → Type 0
Left all rest w = taken w.history ++ commands rest ≡ all

module _ (all : List Entry) where
  -- A step after which nothing goes on.
  abbrev Stops : Step → Type 0
  Stops = Ends (λ (w : Work). ⊥) (SomeTaken all)

  fail-Stops :
      (e : Error) (rest : List Entry) (w : Work)
      → Left all rest w
      → Stops (fail state_machine_apply e w)
  unfolding Ends fail
  fail-Stops e rest w h = (commands rest, h, (λ q. absurd (cc)))

  Stops-Once : (x : Step) → Stops x → Once all x
  Stops-Once x =
      Ends-mono (λ (w : Work). ⊥) (AllTaken all) (SomeTaken all) (SomeTaken all) x (λ w z. absurd z)
        (λ e w h. h)

  stopped_then : (x : Step) (f : Work → Step) → Stops x → Once all (x ▸ f)
  stopped_then x f h =
      Ends-then (λ (w : Work). ⊥) (AllTaken all) (SomeTaken all) x f h (λ w z. absurd z)

  faulted_SomeTaken :
      (rest : List Entry) (e : Error) (w w' : Work)
      → Left all rest w
      → (w'.history ≡ w.history) × (w'.runtime.faulted ≡ true)
      → SomeTaken all e w'
  faulted_SomeTaken rest e w w' h q = (
    commands rest,
    subst (λ t. taken t ++ commands rest ≡ all) (sym (q.0)) h,
    (λ z. absurd (ground (arith, q.1, z))),
  )

  -- An acknowledgement that has ended is followed by `f`; one that fails ends the call.
  Quiet-then :
      (P : Work → Type 0) (rest : List Entry) (w : Work) (x : Step) (f : Work → Step)
      → Left all rest w
      → Quiet w.history x
      → ((w' : Work) → Left all rest w' → Ends P (SomeTaken all) (f w'))
      → Ends P (SomeTaken all) (x ▸ f)
  unfolding Ends
  Quiet-then P rest w (ok u, w') f h q k =
      k w' (subst (λ t. taken t ++ commands rest ≡ all) (sym q) h)
  Quiet-then P rest w (err e, w') f h q k = faulted_SomeTaken rest e w w' h q

  applied_all-Once :
      (entries : List Entry) (acknowledged : Bool) (w : Work)
      → Left all [] w
      → Once all (applied_all entries acknowledged w)
  unfolding Ends applied_all clear_apply_block commands
  applied_all-Once entries acknowledged w h =
      either (not (length entries == 0) && not acknowledged) _ w refl refl
      ∙ sym (append-nil (taken w.history))
      ∙ h
    where
      either :
          (b : Bool) (x y : Work)
          → x.history ≡ w.history
          → y.history ≡ w.history
          → taken (if b then x else y).history ≡ taken w.history
      either true x y h k = ap taken h
      either false x y h k = ap taken k

  block_at-Stops :
      (entries : List Entry) (first : ℕ) (w : Work)
      → Left all (drop first entries) w
      → Stops (err ebusy, block_at entries first w)
  unfolding Ends block_at
  block_at-Stops entries first w h = (commands (drop first entries), h, (λ _. (refl, refl)))

  refused-Stops :
      (entries : List Entry) (first : ℕ) (acknowledged : Bool) (e : Error) (w : Work)
      → Left all (drop first entries) w
      → Stops (refused entries first acknowledged e w)
  unfolding refused clear_apply_block
  refused-Stops entries first acknowledged e w h =
      Quiet-then (λ w. ⊥) (drop first entries) w (acknowledge_ready acknowledged entries first w) _
        h (acknowledge_ready-Quiet acknowledged entries first w)
        (λ w' k.
          Ends-if (λ (w : Work). ⊥) (SomeTaken all) (is_busy e) _ _
            (λ _. block_at-Stops entries first w' k)
            (λ _. fail-Stops e (drop first entries) (clear_apply_block w') k))

  taken_more :
      (batch more : List Entry) (h : History)
      → taken h ++ commands more ≡ all
      → commands more ≡ batch ++ commands (drop (length batch) more)
      → (taken h ++ batch) ++ commands (drop (length batch) more) ≡ all
  taken_more batch more h k e =
      append_assoc (taken h) batch (commands (drop (length batch) more))
      ∙ ap (λ t. taken h ++ t) (sym e)
      ∙ k

nil_of_length : (xs : List Entry) → length xs ≡ 0 → xs ≡ []
nil_of_length [] e = refl
nil_of_length (x ∷ xs) e = absurd (omega arith)

command_prefix_pos :
    (e : Entry) (es : List Entry)
    → is_configuration e ≡ false
    → 1 ≤ length (command_prefix (e ∷ es))
unfolding command_prefix
command_prefix_pos e es c = rw c (omega arith)

commands-configuration :
    (e : Entry) (es : List Entry) → is_configuration e ≡ true → commands (e ∷ es) ≡ commands es
unfolding commands
commands-configuration e es c = rw c refl

module _ (host : Host) (all : List Entry) where
  -- A batch is taken where the call returns SALTS_OK.
  hand_over :
      (entries : List Entry) (first : ℕ) (acknowledged : Bool) (next : Work → Step)
      (left : List Entry) (w : Work)
      → left ≡ drop first entries
      → Left all left w
      → let batch = command_prefix left in
        ((w' : Work) → Left all (drop (length batch) left) w' → Once all (next w'))
        → Once all (
            on_error (refused entries first acknowledged) (call host (apply_batch batch) w)
            ▸ acknowledge_applied acknowledged batch
            ▸ next)
  unfolding call taken batch_of
  hand_over entries first acknowledged next left w q h more =
      answered (host.answer w.history (apply_batch batch))
    where
      batch : List Entry
      batch = command_prefix left

      rest : List Entry
      rest = drop (length batch) left

      answered :
          (r : Result (Unit {0}))
          → Once all (
              on_error
                (refused entries first acknowledged)
                (r, record w { history = (apply_batch batch, r) ∷ w.history })
              ▸ acknowledge_applied acknowledged batch
              ▸ next)
      answered (ok u) =
          let w' : Work = record w { history = (apply_batch batch, ok u) ∷ w.history } in
          Quiet-then all (AllTaken all) rest w' (acknowledge_applied acknowledged batch w') next
            (taken_more all batch left w.history h (commands-prefix left))
            (acknowledge_applied-Quiet acknowledged batch w') more
      answered (err e) =
          let w' : Work = record w { history = (apply_batch batch, err e) ∷ w.history } in
          let x = refused entries first acknowledged e w' in
          let s = refused-Stops all entries first acknowledged e w' (
            subst (λ l. taken w'.history ++ commands l ≡ all) q
              (ap (λ t. t ++ commands left) (append-nil (taken w.history)) ∙ h)) in
          Ends-then (λ (w : Work). ⊥) (AllTaken all) (SomeTaken all)
            (x ▸ acknowledge_applied acknowledged batch) next
            (Ends-then (λ (w : Work). ⊥) (λ w. ⊥) (SomeTaken all) x
              (acknowledge_applied acknowledged batch) s (λ w z. absurd z))
            (λ w z. absurd z)

  apply_round-Once :
      (entries : List Entry) (first : ℕ) (acknowledged : Bool) (next : ℕ → Work → Step)
      (left : List Entry) (w : Work)
      → left ≡ drop first entries
      → Left all left w
      → ((n : ℕ) (w' : Work) → 1 ≤ n → Left all (drop n left) w' → Once all (next n w'))
      → Once all (apply_round host entries first acknowledged next left w)
  unfolding apply_round
  apply_round-Once entries first acknowledged next [] w q h more =
      applied_all-Once all entries acknowledged w h
  apply_round-Once entries first acknowledged next (e ∷ es) w q h more =
      Ends-if (AllTaken all) (SomeTaken all) (is_configuration e) _ _
        (λ c.
          Quiet-then all (AllTaken all) es w (acknowledge_applied acknowledged (e ∷ []) w) (next 1)
            (ap (λ t. taken w.history ++ t) (sym (commands-configuration e es c)) ∙ h)
            (acknowledge_applied-Quiet acknowledged (e ∷ []) w) (λ w' k. more 1 w' (omega arith) k))
        (λ c.
          Ends-if (AllTaken all) (SomeTaken all) (not host.has_apply_batch) _ _
            (λ _. Stops-Once all _ (fail-Stops all einval (e ∷ es) w h))
            (λ _.
              hand_over entries first acknowledged (next (length (command_prefix (e ∷ es))))
                (e ∷ es) w q h
                (λ w' k. more (length (command_prefix (e ∷ es))) w' (command_prefix_pos e es c) k)))

  apply_loop-Once :
      (fuel : ℕ) (entries : List Entry) (first : ℕ) (acknowledged : Bool) (w : Work)
      → length entries ≤ fuel + first
      → Left all (drop first entries) w
      → Once all (apply_loop host fuel entries first acknowledged w)
  unfolding apply_loop
  apply_loop-Once zero entries first acknowledged w f h =
      applied_all-Once all entries acknowledged w (
        subst (λ l. taken w.history ++ commands l ≡ all)
          (nil_of_length (drop first entries) (omega (arith, length-drop first entries))) h)
  apply_loop-Once (suc fuel) entries first acknowledged w f h =
      apply_round-Once entries first acknowledged _ (drop first entries) w refl h (λ n w' p k.
        apply_loop-Once fuel entries (first + n) acknowledged w' (omega (arith, p, f))
          (subst (λ l. taken w'.history ++ commands l ≡ all) (sym (drop-add first n entries)) k))

-- Applying committed entries hands those that carry no configuration to the state machine, each once and
-- in order: all from `first` on where the call returns SALTS_OK; where it returns an error, some of them
-- from the front, and unless the runtime is faulted, the block begins at the first that is left.
pub apply_from-Once :
    (host : Host) (entries : List Entry) (first : ℕ) (acknowledged : Bool) (w : Work)
    → Once
        (taken w.history ++ commands (drop first entries))
        (apply_from host entries first acknowledged w)
unfolding apply_from
apply_from-Once host entries first acknowledged w =
    apply_loop-Once host (taken w.history ++ commands (drop first entries)) (length entries) entries
      first acknowledged (at_stage state_machine_apply w) (omega arith) refl
