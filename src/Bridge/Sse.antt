-- ===== src/Bridge/Sse.antt =====
-- websocket_bridge.py: what a message says, and the server-sent event that it becomes.
pub mod RoundTrip
use codex_reset_proxy.Prelude.{
  ℕ, Bool, true, false, ◌||◌, Option, none, some, List, [], ◌∷◌, ◌++◌, map, leb, if◌then◌else◌,
  ◌==◌, ◌&&◌,
}
use codex_reset_proxy.Text.{Text, codes, eqb}
use codex_reset_proxy.Json.{Json, str, obj, Fields, get, as_str, as_dict}
use codex_reset_proxy.Runtime.{Runtime, Loaded, value, decode_error, load_error}
use codex_reset_proxy.Bridge.Request.{Exn, other, Result, ok, err}
use codex_reset_proxy.Bridge.World.{Message, text, binary}

-- The characters at which `str.splitlines` ends a line.
unfoldable pub is_line_end : ℕ → Bool
is_line_end c =
    (leb 10 c && leb c 13) || (leb 28 c && leb c 30) || c == 0x85 || c == 0x2028 || c == 0x2029

-- Behind `line`, the part of the current line read so far; `cr` says that a carriage return ended
-- the line before, so that a line feed here belongs to it.
unfoldable pub lines_onto : Text → Bool → Text → List Text
lines_onto [] cr [] = []
lines_onto (a ∷ line) cr [] = (a ∷ line) ∷ []
lines_onto line cr (c ∷ cs) =
    let skip = lines_onto line false cs in
    let cut = line ∷ lines_onto [] (c == 13) cs in
    let go_on = lines_onto (line ++ c ∷ []) false cs in
    if cr && c == 10 then skip else if is_line_end c then cut else go_on

-- data.splitlines()
unfoldable pub splitlines : Text → List Text
unfolding lines_onto
splitlines = lines_onto [] false

-- data.splitlines() or [""]
abbrev pub or_blank : List Text → List Text
or_blank [] = [] ∷ []
or_blank (l ∷ ls) = l ∷ ls

abbrev pub data_lines : Text → List Text
data_lines s = or_blank (splitlines s)

-- Each line with its line feed.
unfoldable pub unlines : List Text → Text
unlines [] = []
unlines (l ∷ ls) = l ++ b'\n' ∷ unlines ls

-- The text of `_format_sse`.
unfoldable pub sse_text : Text → Text → Text
sse_text event_type s =
    unlines
      ((codes "event: " ++ event_type) ∷ map (λ l. codes "data: " ++ l) (data_lines s) ++ [] ∷ [])

module _ (py : Runtime) where
  unfoldable pub format_sse : Text → Text → Result Text
  unfolding sse_text
  format_sse event_type s = elim (py.encode_utf8 (sse_text event_type s)) [
    | none ↦ err (other (codes "UnicodeEncodeError"))
    | some bytes ↦ ok bytes
  ]

  unfoldable pub websocket_message_to_text : Message → Result Text
  websocket_message_to_text (text s) = ok s
  websocket_message_to_text (binary b) = elim (py.decode_utf8 b) [
    | none ↦ err (other (codes "UnicodeDecodeError"))
    | some s ↦ ok s
  ]

  abbrev pub type_of : Json → Text
  type_of (obj payload) = elim (as_str (get (codes "type") payload)) [
    | none ↦ codes "message"
    | some t ↦ t
  ]
  type_of _ = codes "message"

  unfoldable pub event_type : Text → Result Text
  event_type s = elim (py.loads s) [
    | value payload ↦ ok (type_of payload)
    | decode_error msg ↦ ok (codes "message")
    | load_error name ↦ err (other name)
  ]

  abbrev pub response_completed : Text
  response_completed = codes "response.completed"

  abbrev is_completed : Option Text → Bool
  is_completed none = false
  is_completed (some t) = eqb t response_completed

  abbrev id_of : Option Fields → Option Text
  id_of none = none
  id_of (some response) = as_str (get (codes "id") response)

  -- The id of the response, if it is a dict with one, and else the payload's `response_id`.
  abbrev completed_id : Fields → Option Text
  completed_id payload = elim (id_of (as_dict (get (codes "response") payload))) [
    | some id ↦ some id
    | none ↦ as_str (get (codes "response_id") payload)
  ]

  abbrev pub completed_of : Json → Option Text
  completed_of (obj payload) =
      if is_completed (as_str (get (codes "type") payload)) then completed_id payload else none
  completed_of _ = none

  unfoldable pub completed_response_id : Text → Result (Option Text)
  completed_response_id s = elim (py.loads s) [
    | value payload ↦ ok (completed_of payload)
    | decode_error msg ↦ ok none
    | load_error name ↦ err (other name)
  ]
