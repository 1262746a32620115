-- ===== src/Vec.antt =====
-- The container `vec_t` of the library cstl. It is not part of the repository: its contents are a
-- list, and the status of each call is a parameter of the model.
use turboraft.Prelude.{ℕ, zero, suc, Option, none, some, List, [], ◌∷◌}
use turboraft.Status.{StlStatus}

-- The statuses of the calls that may allocate, by the size before and, for `vec_resize`, the size
-- asked for.
pub record Vec : Type 0 where
  pub init_bytes : ℕ → StlStatus
  pub reserve : ℕ → StlStatus
  pub push : ℕ → StlStatus
  pub resize : ℕ → ℕ → StlStatus

-- The contents after `vec_resize`: new elements are `fill`.
unfoldable pub resized {ℓ} : {A : Type ℓ} → A → ℕ → List A → List A
resized fill zero xs = []
resized fill (suc n) [] = fill ∷ resized fill n []
resized fill (suc n) (x ∷ xs) = x ∷ resized fill n xs

-- `*vec_at(vec, i) = x`; out of range `vec_at` is null, and the write is undefined: `none`.
unfoldable pub write_at {ℓ} : {A : Type ℓ} → ℕ → A → List A → Option (List A)
write_at i x [] = none
write_at zero x (y ∷ ys) = some (x ∷ ys)
write_at (suc i) x (y ∷ ys) = elim (write_at i x ys) [ none ↦ none | some zs ↦ some (y ∷ zs) ]
