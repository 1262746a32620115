-- ===== src/Status.antt =====
-- The status codes that the functions return (the SALTS_ names of cmeta_error.h that src/core uses),
-- and turboraft_stl_status.h, which turns a container's status into one.
use turboraft.Prelude.{ℕ, ◌≡◌, refl, ◌⊎◌, inl, inr}

-- SALTS_OK is `ok`; another code is a value of `Error` behind `err`. `crashed` is no code: it stands
-- for a call that writes through a null pointer. `other` is any code that a callback returns.
pub data Error : Type 0 where
  einval eproto enospc ebusy enoent eperm ealready enomem enobufs eshutdown efbig crashed : Error
  other : ℕ → Error

pub data Result {ℓ} (A : Type ℓ) : Type ℓ where
  err : Error → Result A
  ok : A → Result A

pub Result-cases {ℓ} :
    {A : Type ℓ} (r : Result A) → ((e : Error) × (r ≡ err e)) ⊎ ((a : A) × (r ≡ ok a))
Result-cases (ok a) = inr (a, refl)
Result-cases (err e) = inl (e, refl)

-- `stl_status` of the container library.
pub data StlStatus : Type 0 where
  stl_ok stl_out_of_memory stl_capacity_exceeded stl_empty stl_not_found : StlStatus
  stl_invalid_argument stl_type_mismatch stl_trait_missing : StlStatus

unfoldable pub stl_status_to_error : StlStatus → Result (Unit {0})
stl_status_to_error stl_ok = ok tt
stl_status_to_error stl_out_of_memory = err enomem
stl_status_to_error stl_capacity_exceeded = err enospc
stl_status_to_error stl_empty = err enoent
stl_status_to_error stl_not_found = err enoent
stl_status_to_error _ = err einval

infixl 5 ◌>>◌ ◌>>=◌
-- A check, and what follows where it passes.
abbrev pub ◌>>◌ {ℓ} : {B : Type ℓ} → Result (Unit {0}) → Result B → Result B
err status >> rest = err status
ok _ >> rest = rest

-- A value, and what is done with it.
abbrev pub ◌>>=◌ {ℓ κ} : {A : Type ℓ} {B : Type κ} → Result A → (A → Result B) → Result B
err status >>= rest = err status
ok value >>= rest = rest value
