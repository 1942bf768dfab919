-- ===== src/Api/Errors.antt =====
-- internal/api/errors.go and mapVMError of internal/api/vms.go: the status and the code of an error.
-- The message is left out.
use kite_kvm.Prelude.{Error, String, ℕ}

pub record ApiError : Type 0 where
  pub status : ℕ
  pub code : String

-- newAPIError
abbrev pub new_api_error : ℕ → String → ApiError
new_api_error status code = record { status = status; code = code }

abbrev pub bad_request : ApiError
bad_request = new_api_error 400 "bad_request"

abbrev pub unauthorized : ApiError
unauthorized = new_api_error 401 "unauthorized"

abbrev pub forbidden : ApiError
forbidden = new_api_error 403 "forbidden"

-- errNotFound
abbrev pub no_such : ApiError
no_such = new_api_error 404 "not_found"

-- errConflict
abbrev pub in_conflict : ApiError
in_conflict = new_api_error 409 "conflict"

abbrev pub unprocessable : ApiError
unprocessable = new_api_error 422 "unprocessable"

abbrev pub internal : ApiError
internal = new_api_error 500 "internal"

-- mapVMError
unfoldable pub map_vm_error : Error → ApiError
map_vm_error Error.flavor_not_found = unprocessable
map_vm_error Error.image_not_found = unprocessable
map_vm_error Error.network_not_found = unprocessable
map_vm_error Error.invalid_request = bad_request
map_vm_error Error.vm_not_found = no_such
map_vm_error Error.vm_terminated = in_conflict
map_vm_error Error.vm_not_running = in_conflict
map_vm_error Error.insufficient_capacity = in_conflict
map_vm_error Error.no_ip_available = in_conflict
map_vm_error _ = internal
