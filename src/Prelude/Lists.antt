-- ===== src/Prelude/Lists.antt =====
-- Lists measured and indexed by native numbers, under the library's names.
use Prim.Native.Nat.{ℕ, zero, suc, ◌+◌, ◌-◌, ◌≤◌, ◌<◌, min}
use mathlib.Core.Path.{◌≡◌, refl, ap, sym, ◌∙◌}
use mathlib.Core.List.{List, [], ◌∷◌, ◌++◌}
use mathlib.Core.Option.{Option, none, some}
use native.Mathlib.Omega.{arith}

module _ {ℓ} {A : Type ℓ} where
  abbrev pub length : List A → ℕ
  length [] = 0
  length (x ∷ xs) = suc (length xs)

  abbrev pub get_elem? : List A → ℕ → Option A
  get_elem? [] i = none
  get_elem? (x ∷ xs) zero = some x
  get_elem? (x ∷ xs) (suc i) = get_elem? xs i

  abbrev pub get_or : List A → ℕ → A → A
  get_or [] i d = d
  get_or (x ∷ xs) zero d = x
  get_or (x ∷ xs) (suc i) d = get_or xs i d

  abbrev pub take : ℕ → List A → List A
  take zero xs = []
  take (suc n) [] = []
  take (suc n) (x ∷ xs) = x ∷ take n xs

  abbrev pub drop : ℕ → List A → List A
  drop zero xs = xs
  drop (suc n) [] = []
  drop (suc n) (x ∷ xs) = drop n xs

  -- A write out of range changes nothing.
  abbrev pub set : List A → ℕ → A → List A
  set [] i v = []
  set (x ∷ xs) zero v = v ∷ xs
  set (x ∷ xs) (suc i) v = x ∷ set xs i v

  pub length-append : (xs ys : List A) → length (xs ++ ys) ≡ length xs + length ys
  length-append [] ys = omega arith
  length-append (x ∷ xs) ys = omega (arith, length-append xs ys)

  pub length-take : (n : ℕ) (xs : List A) → length (take n xs) ≡ min n (length xs)
  length-take zero xs = omega arith
  length-take (suc n) [] = omega arith
  length-take (suc n) (x ∷ xs) = omega (arith, length-take n xs)

  pub length-drop : (n : ℕ) (xs : List A) → length (drop n xs) ≡ length xs - n
  length-drop zero xs = omega arith
  length-drop (suc n) [] = omega arith
  length-drop (suc n) (x ∷ xs) = omega (arith, length-drop n xs)

module _ {ℓ} {A : Type ℓ} where
  pub get_elem?_beyond : (xs : List A) (i : ℕ) → length xs ≤ i → get_elem? xs i ≡ none
  get_elem?_beyond [] i h = refl
  get_elem?_beyond (x ∷ xs) zero h = absurd (omega arith)
  get_elem?_beyond (x ∷ xs) (suc i) h = get_elem?_beyond xs i (omega arith)

  -- What `drop` leaves begins with the element at that index.
  pub get_elem?-drop_nil : (xs : List A) (i : ℕ) → drop i xs ≡ [] → get_elem? xs i ≡ none
  get_elem?-drop_nil [] i e = refl
  get_elem?-drop_nil (x ∷ xs) zero e = absurd (ground arith)
  get_elem?-drop_nil (x ∷ xs) (suc i) e = get_elem?-drop_nil xs i e

  pub get_elem?-drop_cons :
      (xs : List A) (i : ℕ) (y : A) (ys : List A)
      → drop i xs ≡ y ∷ ys
      → (get_elem? xs i ≡ some y) × (drop (suc i) xs ≡ ys) × (i < length xs)
  get_elem?-drop_cons [] zero y ys e = absurd (ground arith)
  get_elem?-drop_cons [] (suc i) y ys e = absurd (ground arith)
  get_elem?-drop_cons (x ∷ xs) zero y ys e = (ground arith, ground arith, omega arith)
  get_elem?-drop_cons (x ∷ xs) (suc i) y ys e =
      let (h, d, lt) = get_elem?-drop_cons xs i y ys e in (h, d, omega arith)

  pub length-drop_nil : (xs : List A) (i : ℕ) → drop i xs ≡ [] → length xs ≤ i
  length-drop_nil [] i e = omega arith
  length-drop_nil (x ∷ xs) zero e = absurd (ground arith)
  length-drop_nil (x ∷ xs) (suc i) e = omega (arith, length-drop_nil xs i e)

  pub take-append_exact : (xs ys : List A) (n : ℕ) → length xs ≡ n → take n (xs ++ ys) ≡ xs
  take-append_exact [] ys zero e = refl
  take-append_exact [] ys (suc n) e = absurd (omega arith)
  take-append_exact (x ∷ xs) ys zero e = absurd (omega arith)
  take-append_exact (x ∷ xs) ys (suc n) e = ap (◌∷◌ x) (take-append_exact xs ys n (omega arith))

  take_nil : (n : ℕ) → take {A = A} n [] ≡ []
  take_nil zero = refl
  take_nil (suc n) = refl

  pub take_all : (xs : List A) (n : ℕ) → length xs ≤ n → take n xs ≡ xs
  take_all [] zero h = refl
  take_all [] (suc n) h = refl
  take_all (x ∷ xs) zero h = absurd (omega arith)
  take_all (x ∷ xs) (suc n) h = ap (◌∷◌ x) (take_all xs n (omega arith))

  pub take-append-drop : (n : ℕ) (xs : List A) → take n xs ++ drop n xs ≡ xs
  take-append-drop zero xs = refl
  take-append-drop (suc n) [] = refl
  take-append-drop (suc n) (x ∷ xs) = ap (◌∷◌ x) (take-append-drop n xs)

  pub take-add : (d n : ℕ) (xs : List A) → take (d + n) xs ≡ take d xs ++ take n (drop d xs)
  take-add zero n xs = ap (λ k. take k xs) (omega arith)
  take-add (suc d) n [] = take_nil (suc d + n) ∙ sym (take_nil n)
  take-add (suc d) n (x ∷ xs) =
      let k : suc d + n ≡ suc (d + n) = omega arith in rw k (ap (◌∷◌ x) (take-add d n xs))

  pub take-take-append :
      (p m : ℕ) (xs ys : List A) → p ≤ m → m ≤ length xs → take p (take m xs ++ ys) ≡ take p xs
  take-take-append zero m xs ys h k = refl
  take-take-append (suc p) zero xs ys h k = absurd (omega arith)
  take-take-append (suc p) (suc m) [] ys h k = absurd (omega arith)
  take-take-append (suc p) (suc m) (x ∷ xs) ys h k =
      ap (◌∷◌ x) (take-take-append p m xs ys (omega arith) (omega arith))
