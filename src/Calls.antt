-- ===== src/Calls.antt =====
-- A call that returns a status and changes a state, and what is known behind it on either outcome.
use turboraft.Prelude.{Bool, true, false, if◌then◌else◌, ◌≡◌, refl}
use turboraft.Status.{Error, Result, ok, err}

infixl 5 ◌▸◌
-- The next statement of a call, unless the one before has returned an error.
abbrev pub ◌▸◌ {ℓ} :
    {S : Type ℓ} → Result (Unit {0}) × S → (S → Result (Unit {0}) × S) → Result (Unit {0}) × S
(ok _, s) ▸ f = f s
(err e, s) ▸ f = (err e, s)

abbrev pub done {ℓ} : {S : Type ℓ} → S → Result (Unit {0}) × S
done s = (ok tt, s)

-- What is done where the step before has returned an error.
abbrev pub on_error {ℓ} :
    {S : Type ℓ}
    → (Error → S → Result (Unit {0}) × S)
    → Result (Unit {0}) × S
    → Result (Unit {0}) × S
on_error f (ok _, s) = done s
on_error f (err e, s) = f e s

module _ {ℓ} {S : Type ℓ} where
  -- `P` holds behind a call that returns SALTS_OK, and `Q` behind one that returns an error.
  unfoldable pub Ends {κ} : (S → Type κ) → (Error → S → Type κ) → Result (Unit {0}) × S → Type κ
  Ends P Q (ok _, s) = P s
  Ends P Q (err e, s) = Q e s

  pub Ends-then {κ} :
      (P P' : S → Type κ) (Q : Error → S → Type κ) (x : Result (Unit {0}) × S)
      (f : S → Result (Unit {0}) × S)
      → Ends P Q x
      → ((s : S) → P s → Ends P' Q (f s))
      → Ends P' Q (x ▸ f)
  unfolding Ends
  Ends-then P P' Q (ok _, s) f h k = k s h
  Ends-then P P' Q (err e, s) f h k = h

  pub Ends-if {κ} :
      (P : S → Type κ) (Q : Error → S → Type κ) (b : Bool) (x y : Result (Unit {0}) × S)
      → (b ≡ true → Ends P Q x)
      → (b ≡ false → Ends P Q y)
      → Ends P Q (if b then x else y)
  Ends-if P Q true x y h k = h refl
  Ends-if P Q false x y h k = k refl

  pub Ends-mono {κ} :
      (P P' : S → Type κ) (Q Q' : Error → S → Type κ) (x : Result (Unit {0}) × S)
      → ((s : S) → P s → P' s)
      → ((e : Error) (s : S) → Q e s → Q' e s)
      → Ends P Q x
      → Ends P' Q' x
  unfolding Ends
  Ends-mono P P' Q Q' (ok _, s) f g h = f s h
  Ends-mono P P' Q Q' (err e, s) f g h = g e s h

  pub Ends-elim {κ μ} :
      {A : Type μ} (P : S → Type κ) (Q : Error → S → Type κ) (r : Result A)
      (f : Error → Result (Unit {0}) × S) (g : A → Result (Unit {0}) × S)
      → ((e : Error) → r ≡ err e → Ends P Q (f e))
      → ((a : A) → r ≡ ok a → Ends P Q (g a))
      → Ends P Q (elim r as (λ _. Result (Unit {0}) × S) [ err e ↦ f e | ok a ↦ g a ])
  Ends-elim P Q (ok a) f g h k = k a refl
  Ends-elim P Q (err e) f g h k = h e refl
