-- ===== src/Mcp/Server.antt =====
-- internal/mcpserver/server.go and protocol.go: the loop over the lines and the handling of a request.
-- The JSON decoders are parameters; an id is its raw text, empty for none. The tools of the model do
-- not panic, so what recovers from a panic is left out, and every response can be written.
use merger.Prelude.{
  ℤ, negsuc, Bool, true, false, not, List, [], ◌∷◌, ◌++◌, Option, none, some, ◌==◌, if◌then◌else◌,
  is_empty, Result, ok, err,
}
use merger.Text.{Str, str_key, lit, is_blank, trim_space, has_prefix, split}
use merger.Mcp.Tools.{Arguments, CallError, ToolResult, World, call}

-- `requestEnvelope`
pub record Request : Type 0 where
  pub jsonrpc : Str
  pub id : Str
  pub method : Str
  pub params : Str

-- `toolCallParams`; arguments that are absent or null are `none`.
pub record ToolCall (Json : Type 0) : Type 0 where
  pub name : Str
  pub arguments : Option (Arguments Json)

-- What the message of an error says.
pub data Problem : Type 0 where
  parse_error invalid_version not_initialized invalid_initialize invalid_call : Problem
  name_required : Problem
  method_not_found unknown_tool : Str → Problem

pub record ErrorEnvelope : Type 0 where
  pub code : ℤ
  pub message : Problem

pub data Outcome : Type 0 where
  initialized_as : Str → Outcome
  pong tool_list : Outcome
  tool_result : ToolResult → Outcome
  -- A result with `isError`, whose text is that of the error.
  tool_failed : CallError → Outcome
  failed : ErrorEnvelope → Outcome

pub record Response : Type 0 where
  pub id : Str
  pub outcome : Outcome

-- `Server`; its tools are those of `Definitions`, whatever happens.
pub record Server : Type 0 where
  pub initialized : Bool

abbrev pub new : Server
new = record { initialized = false }

abbrev pub success_response : Str → Outcome → Response
success_response id outcome = record { id = id; outcome = outcome }

abbrev pub error_response : Str → ℤ → Problem → Response
error_response id code message = record {
  id = id;
  outcome = Outcome.failed (record { code = code; message = message });
}

abbrev pub json_rpc_parse_error : ℤ
json_rpc_parse_error = negsuc 32699

abbrev pub json_rpc_invalid_request : ℤ
json_rpc_invalid_request = negsuc 32599

abbrev pub json_rpc_method_not_found : ℤ
json_rpc_method_not_found = negsuc 32600

abbrev pub json_rpc_invalid_params : ℤ
json_rpc_invalid_params = negsuc 32601

abbrev pub json_rpc_server_error : ℤ
json_rpc_server_error = negsuc 31999

unfoldable pub protocol_version : Str
unfolding lit
protocol_version = lit "2025-06-18"

pub record Codec (Json : Type 0) : Type 0 where
  pub decode_request : Str → Option Request
  pub decode_initialize : Str → Option Str
  pub decode_call : Str → Option (ToolCall Json)

-- The server answers with its own version, whatever the client names.
abbrev negotiated : Str → Option Str → Response
negotiated id none = error_response id json_rpc_invalid_params Problem.invalid_initialize
negotiated id (some version) = success_response id (
    Outcome.initialized_as
      (if trim_space version == protocol_version then version else protocol_version))

abbrev arguments_or_none {ℓ} : {A : Type ℓ} → Option (List A) → List A
arguments_or_none none = []
arguments_or_none (some args) = args

unfoldable pub tool_response : Str → Result CallError ToolResult → Response
tool_response id (ok result) = success_response id (Outcome.tool_result result)
tool_response id (err (CallError.unknown_tool name)) =
    error_response id json_rpc_invalid_params (Problem.unknown_tool name)
tool_response id (err e) = success_response id (Outcome.tool_failed e)

abbrev pub written : Option Response → List Response
written none = []
written (some response) = response ∷ []

module _ {Json : Type 0} (c : Codec Json) (w : World Json) where
  unfoldable pub handle_initialize : Request → Response
  unfolding protocol_version trim_space
  handle_initialize req =
      if is_empty req.params
      then success_response req.id (Outcome.initialized_as protocol_version)
      else negotiated req.id (c.decode_initialize req.params)

  abbrev pub called : Str → Option (ToolCall Json) → Response
  called id none = error_response id json_rpc_invalid_params Problem.invalid_call
  called id (some params) =
      if is_blank params.name
      then error_response id json_rpc_invalid_params Problem.name_required
      else tool_response id (call w params.name (arguments_or_none params.arguments))

  unfoldable pub handle_tool_call : Request → Response
  unfolding is_blank call tool_response
  handle_tool_call req = called req.id (c.decode_call req.params)

  abbrev require_initialized : Server → Str → Response → Response
  require_initialized s id response =
      if s.initialized
      then response
      else error_response id json_rpc_server_error Problem.not_initialized

  unfoldable pub handle_request : Server → Request → Server × Option Response
  unfolding handle_initialize handle_tool_call has_prefix lit
  handle_request s req =
      if not (req.jsonrpc == lit "2.0")
      then (s, some (error_response req.id json_rpc_invalid_request Problem.invalid_version))
      else if req.method == lit "initialize"
      then (s, some (handle_initialize req))
      else if req.method == lit "notifications/initialized"
      then (record { initialized = true }, none)
      else if req.method == lit "ping"
      then (s, some (success_response req.id Outcome.pong))
      else if req.method == lit "tools/list"
      then (s, some (require_initialized s req.id (success_response req.id Outcome.tool_list)))
      else if req.method == lit "tools/call"
      then (s, some (require_initialized s req.id (handle_tool_call req)))
      else if has_prefix req.method (lit "notifications/")
      then (s, none)
      else (
        s,
        some
            (error_response req.id json_rpc_method_not_found (Problem.method_not_found req.method)),
      )

  abbrev pub handle_decoded : Server → Option Request → Server × Option Response
  handle_decoded s none = (s, some (error_response [] json_rpc_parse_error Problem.parse_error))
  handle_decoded s (some req) = handle_request s req

  unfoldable pub handle_line : Server → Str → Server × Option Response
  unfolding handle_request
  handle_line s line = handle_decoded s (c.decode_request line)

  -- One round of the loop: a line of space is passed over.
  unfoldable pub take_line : Server → Str → Server × List Response
  unfolding trim_space handle_line
  take_line s line =
      let trimmed = trim_space line in
      let (s', response) = handle_line s trimmed in
      if is_empty trimmed then (s, []) else (s', written response)

  unfoldable pub take_lines : Server → List Str → Server × List Response
  unfolding take_line
  take_lines s [] = (s, [])
  take_lines s (line ∷ lines) =
      let (s', responses) = take_line s line in
      let (s'', more) = take_lines s' lines in (s'', responses ++ more)

  -- `Serve`: a last line without its end is taken too.
  unfoldable pub serve : Server → Str → Server × List Response
  unfolding split take_lines
  serve s input = take_lines s (split b'\n' input)
