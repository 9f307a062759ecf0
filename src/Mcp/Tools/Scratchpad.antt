-- ===== src/Mcp/Tools/Scratchpad.antt =====
-- `ScratchpadToolHandler` and `CompositeToolHandler`. The store that clones of a handler share is the
-- handler's state here; a handler's definitions, which are data, are a parameter.
pub mod Stored
use tttt.Base.{
  ℕ, Bool, true, false, Option, none, some, List, [], ◌∷◌, ◌++◌, if◌then◌else◌, Result, ok, err,
}
use tttt.Base.Text.{Text, codes, text_eq}
use tttt.Base.Map
use tttt.Mcp.Protocol.{
  Json, McpError, tool_not_found, invalid_params, protocol, pty, io, json, scheduler,
}
use tttt.Mcp.Server.{ToolHandler}

module _ (J : Json) where
  abbrev pub Store : Type 0
  Store = List (Text × Text)

  abbrev pub appended : Text → Option Text → Text
  appended content none = content
  appended content (some old) = old ++ content

  -- `entry(key).and_modify(push_str).or_insert(content)`, or `insert`.
  unfoldable pub write_entry : Bool → Text → Text → Store → Store
  write_entry true key content store = Map.insert key (appended content (Map.get key store)) store
  write_entry false key content store = Map.insert key content store

  abbrev pub written : Bool → Option Text → Option Text → Store → Result McpError J.Value × Store
  written append none content store = (err (invalid_params (codes "key required")), store)
  written append (some key) none store = (err (invalid_params (codes "content required")), store)
  written append (some key) (some content) store = (
    ok (J.object ((codes "status", J.string (codes "ok")) ∷ [])),
    write_entry append key content store,
  )

  abbrev pub or_false : Option Bool → Bool
  or_false none = false
  or_false (some b) = b

  unfoldable pub handle_scratchpad_write :
      (J.Value → Option Bool) → J.Value → Store → Result McpError J.Value × Store
  handle_scratchpad_write as_bool args store =
      written (or_false (as_bool (J.index args (codes "append"))))
        (J.as_str (J.index args (codes "key"))) (J.as_str (J.index args (codes "content"))) store

  abbrev pub found : Text → Option Text → Result McpError J.Value
  found key none = err (invalid_params (codes "scratchpad key not found: " ++ key))
  found key (some content) = ok (J.object ((codes "content", J.string content) ∷ []))

  abbrev pub asked_for : Store → Option Text → Result McpError J.Value
  asked_for store none = err (invalid_params (codes "key required"))
  asked_for store (some key) = found key (Map.get key store)

  unfoldable pub handle_scratchpad_read : J.Value → Store → Result McpError J.Value × Store
  handle_scratchpad_read args store =
      (asked_for store (J.as_str (J.index args (codes "key"))), store)

  -- The handler; `as_bool` reads a JSON truth value.
  abbrev pub scratchpad : (J.Value → Option Bool) → List J.Value → ToolHandler J
  scratchpad as_bool definitions = record {
    Handler = Store;
    tool_definitions = λ store. definitions;
    handle_tool_call = λ name args store.
        if text_eq name (codes "tttt_scratchpad_write")
        then handle_scratchpad_write as_bool args store
        else if text_eq name (codes "tttt_scratchpad_read")
        then handle_scratchpad_read args store
        else (err (tool_not_found name), store);
  }

  -- The handlers of a composite are asked in order, up to the first that knows the tool.
  abbrev pub nobody : ToolHandler J
  nobody = record {
    Handler = Unit;
    tool_definitions = λ h. [];
    handle_tool_call = λ name args h. (err (tool_not_found name), h);
  }

  abbrev pub or_rest :
      {H K : Type 0}
      → (K → Result McpError J.Value × K)
      → K
      → Result McpError J.Value × H
      → Result McpError J.Value × (H × K)
  or_rest rest k (ok value, h) = (ok value, (h, k))
  or_rest rest k (err (tool_not_found name), h) = let (result, k') = rest k in (result, (h, k'))
  or_rest rest k (err (invalid_params msg), h) = (err (invalid_params msg), (h, k))
  or_rest rest k (err (protocol msg), h) = (err (protocol msg), (h, k))
  or_rest rest k (err (pty msg), h) = (err (pty msg), (h, k))
  or_rest rest k (err (io msg), h) = (err (io msg), (h, k))
  or_rest rest k (err (json msg), h) = (err (json msg), (h, k))
  or_rest rest k (err (scheduler msg), h) = (err (scheduler msg), (h, k))

  abbrev pub beside : ToolHandler J → ToolHandler J → ToolHandler J
  beside T U = record {
    Handler = T.Handler × U.Handler;
    tool_definitions = λ h. T.tool_definitions h.0 ++ U.tool_definitions h.1;
    handle_tool_call = λ name args h.
        or_rest (U.handle_tool_call name args) h.1 (T.handle_tool_call name args h.0);
  }

  unfoldable pub composite : List (ToolHandler J) → ToolHandler J
  composite [] = nobody
  composite (T ∷ Ts) = beside T (composite Ts)
