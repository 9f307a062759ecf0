-- ===== src/Mcp/Server.antt =====
-- `McpServer` of crates/tttt-mcp/src/server.rs, over any handler of tools. What the reader and the
-- writer do is an argument of the loop; the output is the list of the responses written in full.
pub mod Answers
mod Samples
use tttt.Base.{
  ℕ, Bool, true, false, Option, none, some, List, [], ◌∷◌, ◌++◌, if◌then◌else◌, is_empty, Result,
  ok, err, ◌>>=◌,
}
use tttt.Base.Text.{Text, codes, text_eq}
use tttt.Base.Space.{trim}
use tttt.Mcp.Protocol.{
  Json, Request, Response, JsonRpcError, McpError, protocol, tool_not_found, invalid_params, pty,
  io, json, scheduler, parse_error, method_not_found, invalid_params_error, internal_error, success,
  failure,
}

module _ (J : Json) where
  -- The trait `ToolHandler`.
  pub record ToolHandler : Type 1 where
    pub Handler : Type 0
    pub tool_definitions : Handler → List J.Value
    pub handle_tool_call : Text → J.Value → Handler → Result McpError J.Value × Handler

-- What the reader and the writer do in a round of the loop: the line read, or the error; the errors
-- of `writeln` and of `flush`, where the round comes to them.
pub record Round : Type 0 where
  pub read : Result Text Text
  pub write_error : Option Text
  pub flush_error : Option Text

module _ (J : Json) (T : ToolHandler J) where
  pub record McpServer : Type 0 where
    pub handler : T.Handler
    pub server_name : Text
    pub server_version : Text
    pub initialized : Bool

  unfoldable pub new : T.Handler → McpServer
  new handler = record {
    handler = handler;
    server_name = codes "tttt";
    server_version = codes "0.1.0";
    initialized = false;
  }

  abbrev pub Outcome : Type 0
  Outcome = Result McpError J.Value × McpServer

  unfoldable pub handle_initialize : McpServer → Outcome
  handle_initialize server = (
    ok (
        J.object (
          (codes "protocolVersion", J.string (codes "2024-11-05"))
          ∷ (codes "capabilities", J.object ((codes "tools", J.object []) ∷ []))
          ∷ (
            codes "serverInfo",
            J.object (
                (codes "name", J.string server.server_name)
                ∷ (codes "version", J.string server.server_version)
                ∷ []),
          )
          ∷ [])),
    record server { initialized = true },
  )

  unfoldable pub handle_tools_list : McpServer → Outcome
  handle_tools_list server =
      (ok (J.object ((codes "tools", J.array (T.tool_definitions server.handler)) ∷ [])), server)

  -- The result of a tool as the one item of the content.
  abbrev content : J.Value → J.Value
  content result = J.object (
      (
        codes "content",
        J.array (
            J.object (
              (codes "type", J.string (codes "text"))
              ∷ (codes "text", J.string (J.to_string result))
              ∷ [])
            ∷ []),
      )
      ∷ [])

  abbrev called : McpServer → Result McpError J.Value × T.Handler → Outcome
  called server (err e, handler) = (err e, record server { handler = handler })
  called server (ok result, handler) = (ok (content result), record server { handler = handler })

  unfoldable pub handle_tools_call : J.Value → McpServer → Outcome
  handle_tools_call params server = elim (J.as_str (J.index params (codes "name"))) [
    | none ↦ (err (invalid_params (codes "tool name required")), server)
    | some name ↦
        called server (T.handle_tool_call name (J.index params (codes "arguments")) server.handler)
  ]

  unfoldable pub dispatch : Request J.Value → McpServer → Outcome
  dispatch request server =
      if text_eq request.method (codes "initialize")
      then handle_initialize server
      else if text_eq request.method (codes "ping")
      then (ok (J.object []), server)
      else if text_eq request.method (codes "tools/list")
      then handle_tools_list server
      else if text_eq request.method (codes "tools/call")
      then handle_tools_call request.params server
      else (err (protocol request.method), server)

  unfoldable pub error_of : McpError → JsonRpcError
  error_of (tool_not_found name) = method_not_found name
  error_of (invalid_params msg) = invalid_params_error msg
  error_of (protocol method) = method_not_found method
  error_of (pty msg) = internal_error msg
  error_of (io msg) = internal_error msg
  error_of (json msg) = internal_error msg
  error_of (scheduler msg) = internal_error msg

  abbrev pub respond : J.Value → Result McpError J.Value → Response J.Value
  respond id (ok value) = success id value
  respond id (err e) = failure id (error_of e)

  abbrev answer :
      Request J.Value → Option J.Value → McpServer → Option (Response J.Value) × McpServer
  answer request none server = (none, server)
  answer request (some id) server =
      let (result, server') = dispatch request server in (some (respond id result), server')

  abbrev pub reply : Option (Request J.Value) → McpServer → Option (Response J.Value) × McpServer
  reply none server = (some (failure J.null parse_error), server)
  reply (some request) server = answer request request.id server

  unfoldable pub process_line : Text → McpServer → Option (Response J.Value) × McpServer
  process_line line server = reply (J.parse_request line) server

  abbrev pub Run : Type 0
  Run = Result McpError (Unit {0}) × List (Response J.Value) × McpServer

  -- A response is written and flushed, and the loop goes on; without one it goes on.
  abbrev pub written : Round → Option (Response J.Value) → McpServer → Run → Run
  written r none server rest = rest
  written r (some response) server (result, out, server') = elim r.write_error [
    | some why ↦ (err (io why), [], server)
    | none ↦ elim r.flush_error [
      | some why ↦ (err (io why), response ∷ [], server)
      | none ↦ (result, response ∷ out, server')
    ]
  ]

  -- The loop over the lines, to the end of the input or the first error.
  unfoldable pub run : List Round → McpServer → Run
  run [] server = (ok tt, [], server)
  run (r ∷ rounds) server = elim r.read [
    | err why ↦ (err (io why), [], server)
    | ok line ↦
        let trimmed = trim line in
        let (answer, server') = process_line trimmed server in
        let rest = run rounds server' in
        let skipped = run rounds server in
        if is_empty trimmed then skipped else written r answer server' rest
  ]
