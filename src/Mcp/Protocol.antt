-- ===== src/Mcp/Protocol.antt =====
-- crates/tttt-mcp/src/protocol.rs and error.rs. JSON is a parameter: its values, what the server
-- builds and reads of them, and how a line becomes a request.
use tttt.Base.{Option, none, some, List, ◌++◌}
use tttt.Base.Int.{ℤ, negsuc}
use tttt.Base.Text.{Text, codes}

pub record Request (Value : Type 0) : Type 0 where
  pub jsonrpc : Text
  pub id : Option Value
  pub method : Text
  pub params : Value

-- A request's `id` that is missing or null is `none`, and its params that are missing the empty
-- object.
pub record Json : Type 1 where
  pub Value : Type 0
  pub null : Value
  pub string : Text → Value
  pub array : List Value → Value
  pub object : List (Text × Value) → Value
  -- `value[key]`, null where there is none
  pub index : Value → Text → Value
  pub as_str : Value → Option Text
  pub to_string : Value → Text
  pub parse_request : Text → Option (Request Value)

pub data McpError : Type 0 where
  protocol tool_not_found invalid_params : Text → McpError
  -- an error of another part, with the message that it prints
  pty io json scheduler : Text → McpError

pub record JsonRpcError : Type 0 where
  pub code : ℤ
  pub message : Text

unfoldable pub parse_error : JsonRpcError
parse_error = record { code = negsuc 32699; message = codes "Parse error" }

unfoldable pub method_not_found : Text → JsonRpcError
method_not_found method = record {
  code = negsuc 32600;
  message = codes "Method not found: " ++ method;
}

unfoldable pub invalid_params_error : Text → JsonRpcError
invalid_params_error msg = record { code = negsuc 32601; message = codes "Invalid params: " ++ msg }

unfoldable pub internal_error : Text → JsonRpcError
internal_error msg = record { code = negsuc 32602; message = codes "Internal error: " ++ msg }

pub record Response (Value : Type 0) : Type 0 where
  pub jsonrpc : Text
  pub id : Value
  pub result : Option Value
  pub error : Option JsonRpcError

module _ {Value : Type 0} where
  unfoldable pub success : Value → Value → Response Value
  success id result = record { jsonrpc = codes "2.0"; id = id; result = some result; error = none }

  unfoldable pub failure : Value → JsonRpcError → Response Value
  failure id e = record { jsonrpc = codes "2.0"; id = id; result = none; error = some e }
