-- ===== src/Checks/Client.antt =====
-- internal/client: the Ethereum client of an upstream is go-ethereum's. What it answers is an input
-- of the checks.
use node_gateway.Base.{
  ℤ, negsuc, Bool, false, Option, none, some, map, ◌==◌, int_eq, bytes, contains_bytes,
  to_lower_byte,
}
use node_gateway.Errors.{Error, plain, rpc}

pub data Reply {ℓ} (A : Type ℓ) : Type ℓ where
  answered : A → Reply A
  failed : Error → Reply A

abbrev pub json_rpc_err_code_method_not_found : ℤ
json_rpc_err_code_method_not_found = negsuc 32_600

-- internal/checks/check.go
unfoldable pub is_method_not_supported_err : Option Error → Bool
unfolding bytes contains_bytes to_lower_byte
is_method_not_supported_err none = false
is_method_not_supported_err (some (rpc code _)) = code == json_rpc_err_code_method_not_found
is_method_not_supported_err (some (plain message)) =
    contains_bytes (map to_lower_byte (bytes message)) (bytes "unsupported method")
