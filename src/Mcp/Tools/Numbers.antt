-- ===== src/Mcp/Tools/Numbers.antt =====
-- Numbers in the arguments of a tool.
use tttt.Base.{ℕ, Bool, Option, none, some, ◌++◌, if◌then◌else◌, Result, ok, err, min}
use tttt.Base.Text.{Text, codes}
use tttt.Mcp.Protocol.{Json, McpError, invalid_params}

-- What the code asks of a JSON number.
pub record Numbers (J : Json) : Type 0 where
  pub number : ℕ → J.Value
  pub is_null : J.Value → Bool
  pub as_u64 : J.Value → Option ℕ
  -- whether it is, as a finite float, an integer of at least so much
  pub is_integer_from : ℕ → J.Value → Bool

module _ (J : Json) (N : Numbers J) where
  -- The maximum stands for a larger integer that is no `u64`.
  abbrev clipped : J.Value → ℕ → Text → Result McpError ℕ
  clipped value maximum name =
      if N.is_integer_from maximum value
      then ok maximum
      else err (invalid_params (name ++ codes " must be a nonnegative integer"))

  abbrev defaulted : J.Value → Option ℕ → ℕ → Text → Result McpError ℕ
  defaulted value none maximum name = clipped value maximum name
  defaulted value (some d) maximum name =
      if N.is_null value then ok d else clipped value maximum name

  unfoldable pub bounded_integer : J.Value → Option ℕ → ℕ → Text → Result McpError ℕ
  bounded_integer value default maximum name = elim (N.as_u64 value) [
    | some n ↦ ok (min n maximum)
    | none ↦ defaulted value default maximum name
  ]
