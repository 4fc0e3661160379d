-- ===== src/Bridge/World.antt =====
-- The outside of the bridge: what its calls may return, the log of the calls made, and computations
-- that change the log and the pool and may raise. Cancellation of a task is not modelled.
use codex_reset_proxy.Prelude.{
  ℕ, ◌+◌, ◌≡◌, Bool, true, false, not, Option, none, some, List, [], ◌∷◌, ◌==◌, if◌then◌else◌,
}
use codex_reset_proxy.Text.{Text, codes, elem}
use codex_reset_proxy.Runtime.{Runtime}
use codex_reset_proxy.Headers.{Header}
use codex_reset_proxy.Bridge.Pool.{Idle}
use codex_reset_proxy.Bridge.Pool.Dict.{idle_count}
use codex_reset_proxy.Bridge.Request.{Exn}

-- A `str` or `bytes` message.
pub data Message : Type 0 where
  text : Text → Message
  binary : Text → Message

-- A call on the outside. A connection is named by the number of its context.
pub data Event : Type 0 where
  connects : Text → List Header → Event
  creates : ℕ → Event
  closes : ℕ → Event
  sends : ℕ → Text → Event
  receives : ℕ → Event
  reads_clock : Event
  sleeps : ℕ → Event

-- How `connect_factory` and `__aenter__` end. The factory may raise before there is a context; then
-- awaiting or entering the context may.
pub data Connected : Type 0 where
  entered : Connected
  factory_raises : Exn → Connected
  context_raises : Exn → Connected

pub data Received : Type 0 where
  message : Message → Received
  raises : Exn → Received

-- The attributes of a socket that `_websocket_appears_open` reads: `closed` if it is a bool, and
-- `state` with its `name`, if that is a str, and its `str()`.
pub record State : Type 0 where
  pub name : Option Text
  pub shown : Text

pub record Attributes : Type 0 where
  pub closed : Option Bool
  pub state : Option State

-- The answers of the outside, each from the log of all calls up to and with the one that asks.
pub record Outside : Type 0 where
  pub connect : List Event → Connected
  pub send : List Event → Option Exn
  pub recv : List Event → Received
  pub now : List Event → ℕ
  pub attributes : List Event → ℕ → Attributes

-- `next` names the next context; the log has the latest call first.
pub record World : Type 0 where
  pub next : ℕ
  pub idle : Idle
  pub log : List Event

pub data Res {ℓ} (A : Type ℓ) : Type ℓ where
  done : A → World → Res A
  raise : Exn → World → Res A

abbrev pub push : Event → World → World
push e w = record w { log = e ∷ w.log }

-- `_close_context_quietly`: an exception of `__aexit__` is swallowed.
unfoldable pub close_context_quietly : ℕ → World → World
close_context_quietly c w = push (closes c) w

abbrev closing_words : List Text
closing_words = codes "CLOSING" ∷ codes "CLOSED" ∷ []

abbrev named_closing : Runtime → Option Text → Bool
named_closing py none = false
named_closing py (some n) = elem (py.str_upper n) closing_words

unfoldable pub websocket_appears_open : Runtime → Attributes → Bool
websocket_appears_open py a = elim a.closed [
  | some closed ↦ not closed
  | none ↦ elim a.state [
    | none ↦ true
    | some s ↦
        if named_closing py s.name then false else not (elem (py.str_upper s.shown) closing_words)
  ]
]

-- How often a context was made, and closed.
abbrev pub created : ℕ → List Event → ℕ
created c [] = 0
created c (creates d ∷ es) = (if d == c then 1 else 0) + created c es
created c (_ ∷ es) = created c es

abbrev pub closed_count : ℕ → List Event → ℕ
closed_count c [] = 0
closed_count c (closes d ∷ es) = (if d == c then 1 else 0) + closed_count c es
closed_count c (_ ∷ es) = closed_count c es

abbrev pub held_count : ℕ → List ℕ → ℕ
held_count c [] = 0
held_count c (d ∷ ds) = (if d == c then 1 else 0) + held_count c ds

-- Every context made so far is closed, idle in the pool, or held, each once.
abbrev pub IsBalanced : List ℕ → World → Type 0
IsBalanced held w =
    (c : ℕ) → created c w.log ≡ closed_count c w.log + idle_count c w.idle + held_count c held
