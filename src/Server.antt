-- ===== src/Server.antt =====
-- src/ida_pro_mcp/plugin/http_server.py, class `Server`: binding, and the steps of `stop`, which
-- three threads of control take. `socketserver` is as documented: `shutdown` asks the loop of its
-- server to end and blocks until it has ended.
use ida_pro_mcp.Prelude.{
  ℕ, suc, Bool, false, Option, none, some, List, [], ◌∷◌, any, ◌==◌, if◌then◌else◌,
}

-- An `HTTPServer` object, told from others by a number, and its port.
pub record Socket : Type 0 where
  pub id : ℕ
  pub port : ℕ

-- Who may be inside `stop`: the code of the main thread, a signal handler above it, or the watcher.
pub data Owner : Type 0 where
  main_code handler_code watcher_code : Owner

-- `_server`, `_serving`, `_stop_lock`; the objects whose loop was asked to end; the object whose
-- loop has ended; the number of the next object.
pub record Server : Type 0 where
  pub server : Option Socket
  pub serving : Bool
  pub lock : Option Owner
  pub asked : List ℕ
  pub ended : Option ℕ
  pub next_id : ℕ

abbrev pub new_server : Server
new_server = record {
  server = none;
  serving = false;
  lock = none;
  asked = [];
  ended = none;
  next_id = 0;
}

unfoldable pub bound_port : Server → Option ℕ
bound_port sv = elim sv.server [ none ↦ none | some sock ↦ some sock.port ]

-- `bind`, where the system gives a port or fails with `OSError`; `none` is that exception.
unfoldable pub bind : Option ℕ → Server → Option Server
bind given sv = elim sv.server [
  | some sock ↦ some sv
  | none ↦ elim given [
    | none ↦ none
    | some port ↦ some (record sv {
      server = some (record { id = sv.next_id; port = port });
      next_id = suc sv.next_id;
    })
  ]
]

-- Where a thread stands in `stop`: before the lock; inside, before it looks at `_server`; with
-- `_server` taken; in `shutdown`; before `server_close`.
pub data StopPc : Type 0 where
  entering holding : StopPc
  taken waiting closing : Socket → StopPc

-- What a step of `stop` comes to: it blocks, goes on, or returns.
pub data Stopped : Type 0 where
  blocked : Stopped
  goes_on : StopPc → Server → Stopped
  returns : Server → Stopped

unfoldable pub has_ended : ℕ → Server → Bool
has_ended id sv = elim sv.ended [ none ↦ false | some i ↦ i == id ]

unfoldable pub stop_step : Owner → StopPc → Server → Stopped
stop_step who entering sv = elim sv.lock [
  | none ↦ goes_on holding (record sv { lock = some who })
  | some other ↦ blocked
]
stop_step who holding sv = elim sv.server [
  | none ↦ returns (record sv { lock = none })
  | some sock ↦ goes_on (taken sock) (record sv { server = none })
]
stop_step who (taken sock) sv =
    if sv.serving
    then goes_on (waiting sock) (record sv { asked = sock.id ∷ sv.asked })
    else goes_on (closing sock) sv
stop_step who (waiting sock) sv =
    if has_ended sock.id sv then goes_on (closing sock) sv else blocked
stop_step who (closing sock) sv = returns (record sv { lock = none })

-- Whether the loop of an object was asked to end.
unfoldable pub was_asked : ℕ → Server → Bool
was_asked id sv = any (λ i. i == id) sv.asked
