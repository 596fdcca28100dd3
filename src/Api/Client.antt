-- ===== src/Api/Client.antt =====
-- The errors of the Kubernetes API, as far as the program tells them apart.
use kubernetes_controller_sh.Base.{String, Bool, true, false}

pub data ApiError : Type 0 where
  not_found conflict : ApiError
  other_error : String → ApiError

-- `apierrors.IsNotFound`
abbrev pub is_not_found : ApiError → Bool
is_not_found not_found = true
is_not_found conflict = false
is_not_found (other_error m) = false
