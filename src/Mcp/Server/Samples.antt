-- ===== src/Mcp/Server/Samples.antt =====
-- A server over a JSON of texts, in which a line stands for itself.
use tttt.Base.{ℕ, ◌≡◌, Option, none, some, List, [], ◌∷◌, ◌++◌, map, All, ok, err, if◌then◌else◌}
use tttt.Base.Text.{Text, codes, text_eq}
use tttt.Mcp.Protocol.{Json, Request, tool_not_found}
use tttt.Mcp.Server
use tttt.Mcp.Server.{ToolHandler, McpServer, Round}
use tttt.Mcp.Server.Answers
use tttt.Mcp.Server.Answers.{IsOne, fine, lines_read, run_answers, run_in_order}

-- A ping, an initialisation and a notification; every other line is no request.
abbrev parse : Text → Option (Request Text)
parse line =
    if text_eq line (codes "ping")
    then some (record {
      jsonrpc = codes "2.0";
      id = some (codes "7");
      method = codes "ping";
      params = [];
    })
    else if text_eq line (codes "call")
    then some (record {
      jsonrpc = codes "2.0";
      id = some (codes "8");
      method = codes "tools/call";
      params = [];
    })
    else if text_eq line (codes "note")
    then some
        (record { jsonrpc = codes "2.0"; id = none; method = codes "initialized"; params = [] })
    else none

abbrev texts : Json
texts = record {
  Value = Text;
  null = codes "null";
  string = λ t. t;
  array = λ vs. codes "array";
  object = λ fields. codes "object";
  index = λ v key. key;
  as_str = λ v. some v;
  to_string = λ v. v;
  parse_request = parse;
}

abbrev no_tools : ToolHandler texts
no_tools = record {
  Handler = ℕ;
  tool_definitions = λ h. [];
  handle_tool_call = λ name args h. (err (tool_not_found name), h);
}

abbrev server : McpServer texts no_tools
server = Server.new texts no_tools 0

abbrev input : List Text
input = codes " ping " ∷ codes "note" ∷ [] ∷ codes "{" ∷ codes "call" ∷ []

run_answers_example :
    let all = Server.run texts no_tools (map fine input) server in
    (all.0 ≡ ok tt)
    × (map (λ r. r.id) all.1 ≡ Answers.asked_ids texts no_tools input)
    × All IsOne all.1
run_answers_example = run_answers texts no_tools input server

-- The second answer cannot be written.
abbrev closed : List Round
closed =
    fine (codes "ping")
    ∷ record { read = ok (codes "{"); write_error = some (codes "broken pipe"); flush_error = none }
    ∷ fine (codes "call")
    ∷ []

run_in_order_example :
    ((rest : List Text) × (map (λ r. r.id) (Server.run texts no_tools closed server).1 ++ rest
        ≡ Answers.asked_ids texts no_tools (lines_read closed)))
    × All IsOne (Server.run texts no_tools closed server).1
run_in_order_example = run_in_order texts no_tools closed server
