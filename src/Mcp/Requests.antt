-- ===== src/Mcp/Requests.antt =====
-- What the handling of one request answers, and what it leaves of the state.
use merger.Prelude.{
  ◌≡◌, refl, ap, ◌∙◌, Bool, true, false, not, ◌&&◌, ◌||◌, List, Option, none, some, ◌==◌, any,
  arith, Bool-cases, eq→≡, inl, inr, ok, err, Result,
}
use merger.Text.{Str, str_key, lit, is_blank}
use merger.Mcp.Tools.{CallError, ToolResult, World, call}
use merger.Mcp.Server.{
  Request, ToolCall, Problem, Outcome, Response, Server, Codec, tool_response, handle_initialize,
  handle_tool_call, handle_request, written, called,
}

-- What a line asks, in the words of the protocol: a line of space is no message.
abbrev pub is_valid : Request → Bool
is_valid req = req.jsonrpc == lit "2.0"

abbrev pub is_initialized_note : Option Request → Bool
is_initialized_note none = false
is_initialized_note (some req) = is_valid req && req.method == lit "notifications/initialized"

abbrev pub is_tools_request : Option Request → Bool
is_tools_request none = false
is_tools_request (some req) =
    is_valid req && (req.method == lit "tools/list" || req.method == lit "tools/call")

abbrev pub is_not_initialized : Outcome → Bool
is_not_initialized (Outcome.failed e) = elim e.message [
  | Problem.not_initialized ↦ true
  | _ ↦ false
]
is_not_initialized _ = false

abbrev pub refuses : List Response → Bool
refuses = any (λ r. is_not_initialized r.outcome)

tool_response-answers :
    (id : Str) (v : Result CallError ToolResult)
    → (is_not_initialized (tool_response id v).outcome ≡ false) × ((tool_response id v).id ≡ id)
unfolding tool_response
tool_response-answers id (ok _) = (refl, refl)
tool_response-answers id (err (CallError.unknown_tool _)) = (refl, refl)
tool_response-answers id (err CallError.packet_required) = (refl, refl)
tool_response-answers id (err CallError.packet_undecodable) = (refl, refl)
tool_response-answers id (err (CallError.in_resolve _)) = (refl, refl)
tool_response-answers id (err (CallError.in_scan _)) = (refl, refl)

distinct : (m a b : Str) → (a == b) ≡ false → (m == a) ≡ true → (m == b) ≡ false
distinct m a b h e = let same = eq→≡ m a e in ap (λ x. x == b) same ∙ h

unlike : (a b : Str) → (a == b) ≡ false → (m : Str) → (m == a && m == b) ≡ false
unlike a b h m = elim (Bool-cases (m == a)) [
  | inl e ↦ (let d = distinct m a b h e in ground arith)
  | inr n ↦ ground arith
]

initialize-note :
    (m : Str) → (m == lit "initialize" && m == lit "notifications/initialized") ≡ false
unfolding lit
initialize-note = unlike (lit "initialize") (lit "notifications/initialized") refl

initialize-list : (m : Str) → (m == lit "initialize" && m == lit "tools/list") ≡ false
unfolding lit
initialize-list = unlike (lit "initialize") (lit "tools/list") refl

initialize-call : (m : Str) → (m == lit "initialize" && m == lit "tools/call") ≡ false
unfolding lit
initialize-call = unlike (lit "initialize") (lit "tools/call") refl

note-list : (m : Str) → (m == lit "notifications/initialized" && m == lit "tools/list") ≡ false
unfolding lit
note-list = unlike (lit "notifications/initialized") (lit "tools/list") refl

note-call : (m : Str) → (m == lit "notifications/initialized" && m == lit "tools/call") ≡ false
unfolding lit
note-call = unlike (lit "notifications/initialized") (lit "tools/call") refl

ping-list : (m : Str) → (m == lit "ping" && m == lit "tools/list") ≡ false
unfolding lit
ping-list = unlike (lit "ping") (lit "tools/list") refl

ping-call : (m : Str) → (m == lit "ping" && m == lit "tools/call") ≡ false
unfolding lit
ping-call = unlike (lit "ping") (lit "tools/call") refl

module _ {Json : Type 0} (c : Codec Json) (w : World Json) where
  called-answers :
      (id : Str) (o : Option (ToolCall Json))
      → (is_not_initialized (called c w id o).outcome ≡ false) × ((called c w id o).id ≡ id)
  called-answers id none = (refl, refl)
  called-answers id (some params) = elim (Bool-cases (is_blank params.name)) [
    | inl blank ↦ (ground arith, ground arith)
    | inr named ↦
        let (fine, same) = tool_response-answers id (call w params.name _) in
        (rw named fine, rw named same)
  ]

  pub handle_tool_call-answers :
      (req : Request)
      → (is_not_initialized (handle_tool_call c w req).outcome ≡ false)
        × ((handle_tool_call c w req).id ≡ req.id)
  unfolding handle_tool_call
  handle_tool_call-answers req = called-answers req.id (c.decode_call req.params)

  pub handle_initialize-answers :
      (req : Request)
      → (is_not_initialized (handle_initialize c w req).outcome ≡ false)
        × ((handle_initialize c w req).id ≡ req.id)
  unfolding handle_initialize
  handle_initialize-answers req = ground arith

  pub handle_request-initialized :
      (s : Server) (req : Request)
      → (handle_request c w s req).0.initialized ≡ (is_initialized_note (some req) || s.initialized)
  unfolding handle_request
  handle_request-initialized s req = ground (arith, initialize-note req.method)

  pub handle_request-refuses :
      (s : Server) (req : Request)
      → refuses (written (handle_request c w s req).1)
        ≡ (is_tools_request (some req) && not s.initialized)
  unfolding handle_request
  handle_request-refuses s req = ground (
    arith,
    initialize-list req.method,
    initialize-call req.method,
    note-list req.method,
    note-call req.method,
    ping-list req.method,
    ping-call req.method,
    handle_tool_call-answers req,
    handle_initialize-answers req,
  )
