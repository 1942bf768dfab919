-- ===== src/Prelude/Errors.antt =====
-- Go's `(T, error)`: a value or an error. The messages that `fmt.Errorf` adds are left out; what
-- `errors.Is` can tell apart is kept. `hangs` is no error of the code: it marks a call that does not
-- return, where a model's fuel has run out.
use mathlib.Core.Path.{◌≡◌, refl}
use mathlib.Core.Logic.{◌⊎◌, inl, inr}

pub data Error : Type 0 where
  flavor_not_found image_not_found network_not_found invalid_request : Error
  vm_not_found vm_terminated vm_not_running insufficient_capacity : Error
  not_found conflict no_ip_available : Error
  domain_not_found canceled hangs : Error
  db_failed : Error
  other : Error

pub data Result {ℓ} (A : Type ℓ) : Type ℓ where
  ok : A → Result A
  err : Error → Result A

pub Result-cases {ℓ} :
    {A : Type ℓ} (r : Result A) → ((e : Error) × (r ≡ err e)) ⊎ ((a : A) × (r ≡ ok a))
Result-cases (err e) = inl (e, refl)
Result-cases (ok a) = inr (a, refl)
