-- ===== src/Mcp/Refusals.antt =====
-- Which messages are refused since the server is not initialized.
use merger.Prelude.{
  ◌≡◌, refl, ap, ◌∙◌, Bool, true, false, not, ◌&&◌, ◌||◌, List, [], ◌∷◌, none, some, any, is_empty,
  Bool-cases, inl, inr,
}
use merger.Text.{Str, trim_space}
use merger.Mcp.Tools.{World}
use merger.Mcp.Server.{
  Server, new, Codec, handle_line, handle_decoded, take_line, take_lines, written,
}
use merger.Mcp.Requests.{
  is_initialized_note, is_tools_request, refuses, handle_request-initialized,
  handle_request-refuses,
}

module _ {Json : Type 0} (c : Codec Json) where
  -- A line that is the notification that the client is initialized.
  abbrev pub initializes : Str → Bool
  initializes line =
      not (is_empty (trim_space line)) && is_initialized_note (c.decode_request (trim_space line))

  -- A line that lists the tools or calls one.
  abbrev pub asks_tools : Str → Bool
  asks_tools line =
      not (is_empty (trim_space line)) && is_tools_request (c.decode_request (trim_space line))

module _ {Json : Type 0} (c : Codec Json) (w : World Json) where
  handle_line-initialized :
      (s : Server) (line : Str)
      → (handle_line c w s line).0.initialized
        ≡ (is_initialized_note (c.decode_request line) || s.initialized)
  unfolding handle_line
  handle_line-initialized s line =
      elim (c.decode_request line)
        as (λ o.
          (handle_decoded c w s o).0.initialized ≡ (is_initialized_note o || s.initialized)) [
            | none ↦ refl
            | some req ↦ handle_request-initialized c w s req
          ]

  handle_line-refuses :
      (s : Server) (line : Str)
      → refuses (written (handle_line c w s line).1)
        ≡ (is_tools_request (c.decode_request line) && not s.initialized)
  unfolding handle_line
  handle_line-refuses s line =
      elim (c.decode_request line)
        as (λ o.
          refuses (written (handle_decoded c w s o).1)
          ≡ (is_tools_request o && not s.initialized)) [
            | none ↦ refl
            | some req ↦ handle_request-refuses c w s req
          ]

  take_line-initialized :
      (s : Server) (line : Str)
      → (take_line c w s line).0.initialized ≡ (initializes c line || s.initialized)
  unfolding take_line
  take_line-initialized s line = elim (Bool-cases (is_empty (trim_space line))) [
    | inl blank ↦ rw blank refl
    | inr message ↦ rw message (handle_line-initialized s (trim_space line))
  ]

  take_line-refuses :
      (s : Server) (line : Str)
      → refuses (take_line c w s line).1 ≡ (asks_tools c line && not s.initialized)
  unfolding take_line
  take_line-refuses s line = elim (Bool-cases (is_empty (trim_space line))) [
    | inl blank ↦ rw blank refl
    | inr message ↦ rw message (handle_line-refuses s (trim_space line))
  ]

  take_lines-initialized :
      (s : Server) (lines : List Str)
      → (take_lines c w s lines).0.initialized ≡ (any (initializes c) lines || s.initialized)
  unfolding take_lines
  take_lines-initialized s [] = refl
  take_lines-initialized s (line ∷ lines) =
      take_lines-initialized (take_line c w s line).0 lines
      ∙ rw (take_line-initialized s line)
          (swap (any (initializes c) lines) (initializes c line) s.initialized)
    where
      swap : (a b i : Bool) → (a || (b || i)) ≡ ((b || a) || i)
      swap true true i = refl
      swap true false i = refl
      swap false true i = refl
      swap false false i = refl

  -- On a new server, whatever lines come before: a line is answered with the error that the server
  -- is not initialized exactly when it lists the tools or calls one, and no line before it is the
  -- notification that the client is initialized.
  pub session-refuses :
      (before : List Str) (line : Str)
      → refuses (take_line c w (take_lines c w new before).0 line).1
        ≡ (asks_tools c line && not (any (initializes c) before))
  session-refuses before line =
      take_line-refuses (take_lines c w new before).0 line
      ∙ ap (λ b. asks_tools c line && not b)
          (take_lines-initialized new before ∙ or_false (any (initializes c) before))
    where
      or_false : (b : Bool) → (b || false) ≡ b
      or_false true = refl
      or_false false = refl
