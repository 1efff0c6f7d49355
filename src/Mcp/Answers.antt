-- ===== src/Mcp/Answers.antt =====
-- Which messages are answered, and with what id.
use merger.Prelude.{
  ◌≡◌, ◌≢◌, refl, sym, ap, ◌∙◌, Bool, true, false, not, ◌&&◌, List, [], ◌∷◌, ◌++◌, map, Option,
  none, some, ◌==◌, is_empty, if◌then◌else◌, arith, Bool-cases, inl, inr, eq→≡, eq_refl, ℕ, nat_key,
}
use mathlib.Core.List.{map-append}
use merger.Text.{Str, str_key, lit, trim_space, has_prefix, split, push_head}
use merger.Text.Laws.{split-ne-nil}
use merger.Mcp.Tools.{World}
use merger.Mcp.Server.{
  Request, Response, Server, Codec, handle_request, handle_line, handle_decoded, take_line,
  take_lines, serve, written,
}
use merger.Mcp.Requests.{is_valid, handle_tool_call-answers, handle_initialize-answers}

-- A text whose prefix differs from that of another is not the other.
prefix_differs :
    (a p : Str) (b : Bool)
    → has_prefix a p ≡ b
    → (m : Str) → has_prefix m p ≡ not b
    → (m == a) ≡ false
prefix_differs a p b h m k = elim (Bool-cases (m == a)) [
  | inl e ↦ absurd (not_own b (sym h ∙ sym (ap (λ x. has_prefix x p) (eq→≡ m a e)) ∙ k))
  | inr n ↦ n
]
  where
    not_own : (b : Bool) → b ≢ not b
    not_own true e = cc
    not_own false e = cc

initialize-prefix :
    (m : Str) → has_prefix m (lit "notifications/") ≡ true → (m == lit "initialize") ≡ false
unfolding lit has_prefix
initialize-prefix = prefix_differs (lit "initialize") (lit "notifications/") false refl

ping-prefix : (m : Str) → has_prefix m (lit "notifications/") ≡ true → (m == lit "ping") ≡ false
unfolding lit has_prefix
ping-prefix = prefix_differs (lit "ping") (lit "notifications/") false refl

list-prefix :
    (m : Str) → has_prefix m (lit "notifications/") ≡ true → (m == lit "tools/list") ≡ false
unfolding lit has_prefix
list-prefix = prefix_differs (lit "tools/list") (lit "notifications/") false refl

call-prefix :
    (m : Str) → has_prefix m (lit "notifications/") ≡ true → (m == lit "tools/call") ≡ false
unfolding lit has_prefix
call-prefix = prefix_differs (lit "tools/call") (lit "notifications/") false refl

note-prefix :
    (m : Str)
    → has_prefix m (lit "notifications/") ≡ false
    → (m == lit "notifications/initialized") ≡ false
unfolding lit has_prefix
note-prefix = prefix_differs (lit "notifications/initialized") (lit "notifications/") true refl

-- The id with which a message is answered, if it is: a notification is not, and a message that
-- cannot be decoded is with no id.
abbrev pub answered : Option Request → List Str
answered none = [] ∷ []
answered (some req) =
    if is_valid req && has_prefix req.method (lit "notifications/") then [] else req.id ∷ []

abbrev ids : List Response → List Str
ids = map (λ r. r.id)

push_head-append :
    (x : ℕ) (parts : List Str)
    → parts ≢ []
    → push_head x (parts ++ [] ∷ []) ≡ push_head x parts ++ [] ∷ []
push_head-append x [] h = absurd (h refl)
push_head-append x (part ∷ parts) h = refl

split-end : (sep : ℕ) (s : Str) → split sep (s ++ sep ∷ []) ≡ split sep s ++ [] ∷ []
unfolding split
split-end sep [] = rw (eq_refl sep) refl
split-end sep (x ∷ s) = elim (Bool-cases (x == sep)) [
  | inl here ↦ rw here (ap (λ parts. [] ∷ parts) (split-end sep s))
  | inr other ↦
      rw other
        (ap (push_head x) (split-end sep s) ∙ push_head-append x (split sep s) (split-ne-nil sep s))
]

module _ {Json : Type 0} (c : Codec Json) where
  abbrev pub expected : Str → List Str
  expected line =
      if is_empty (trim_space line) then [] else answered (c.decode_request (trim_space line))

  -- The ids of the answers to some lines, in their order.
  abbrev pub expected_all : List Str → List Str
  expected_all [] = []
  expected_all (line ∷ lines) = expected line ++ expected_all lines

module _ {Json : Type 0} (c : Codec Json) (w : World Json) where
  handle_request-ids :
      (s : Server) (req : Request)
      → ids (written (handle_request c w s req).1) ≡ answered (some req)
  unfolding handle_request
  handle_request-ids s req = elim (Bool-cases (req.jsonrpc == lit "2.0")) [
    | inr bad ↦ rw bad refl
    | inl valid ↦ elim (Bool-cases (has_prefix req.method (lit "notifications/"))) [
      | inl note ↦
          rw
            (
              valid,
              initialize-prefix req.method note,
              note,
              ping-prefix req.method note,
              list-prefix req.method note,
              call-prefix req.method note,
            )
            (ground arith)
      | inr other ↦
          let n : (req.method == lit "notifications/initialized") ≡ false =
            note-prefix req.method other in
          rw (valid, n, other)
            (ground (arith, handle_tool_call-answers c w req, handle_initialize-answers c w req))
    ]
  ]

  handle_line-ids :
      (s : Server) (line : Str)
      → ids (written (handle_line c w s line).1) ≡ answered (c.decode_request line)
  unfolding handle_line
  handle_line-ids s line =
      elim (c.decode_request line) as (λ o. ids (written (handle_decoded c w s o).1) ≡ answered o) [
        | none ↦ refl
        | some req ↦ handle_request-ids s req
      ]

  take_line-ids : (s : Server) (line : Str) → ids (take_line c w s line).1 ≡ expected c line
  unfolding take_line
  take_line-ids s line = elim (Bool-cases (is_empty (trim_space line))) [
    | inl blank ↦ rw blank refl
    | inr message ↦ rw message (handle_line-ids s (trim_space line))
  ]

  take_lines-ids :
      (s : Server) (lines : List Str) → ids (take_lines c w s lines).1 ≡ expected_all c lines
  unfolding take_lines
  take_lines-ids s [] = refl
  take_lines-ids s (line ∷ lines) =
      let next = (take_line c w s line).0 in
      map-append (λ (r : Response). r.id) (take_line c w s line).1 (take_lines c w next lines).1
      ∙ rw (take_line-ids s line, take_lines-ids next lines) refl

  -- Whatever the state: of the lines of the input, each request and each message that cannot be
  -- decoded is answered once, in their order and with its own id; a line of space and a notification
  -- with the right version are not.
  pub serve-answers :
      (s : Server) (input : Str)
      → map (λ (r : Response). r.id) (serve c w s input).1 ≡ expected_all c (split b'\n' input)
  unfolding serve
  serve-answers s input = take_lines-ids s (split b'\n' input)

  take_lines-blank :
      (s : Server) (lines : List Str) → take_lines c w s (lines ++ [] ∷ []) ≡ take_lines c w s lines
  unfolding take_lines take_line
  take_lines-blank s [] = refl
  take_lines-blank s (line ∷ lines) =
      ap (λ (x : Server × List Response). (x.0, (take_line c w s line).1 ++ x.1))
        (take_lines-blank (take_line c w s line).0 lines)

  -- A last line that does not end is treated like one that does.
  pub serve-unterminated :
      (s : Server) (input : Str) → serve c w s (input ++ b'\n' ∷ []) ≡ serve c w s input
  unfolding serve
  serve-unterminated s input =
      ap (take_lines c w s) (split-end b'\n' input) ∙ take_lines-blank s (split b'\n' input)
