-- ===== src/FakeDlive/Connections.antt =====
-- fake-dlive/src/main.rs with several connections at a time: each has a task of its own, which runs
-- `handle_connection` on the one state that they share under a lock. An arm of the match that reads or
-- writes the state keeps the lock to its end, so the tasks interleave message by message.
use mcp_server_allenheath_dl.Prelude.{
  ℕ, zero, suc, Bool, true, false, List, [], ◌∷◌, ◌++◌, Option, none, some, Result, ok,
}
use mcp_server_allenheath_dl.Prelude.Exec.{Exec, lift, ◌>>=◌}
use mcp_server_allenheath_dl.Messages.{Message}
use mcp_server_allenheath_dl.FakeDlive.{State, handle}

-- A connection's sink, and how its task has ended: it runs as long as the outcome is `ok`. An error is
-- logged; a panic ends the task alone, and leaves the lock as it is for the others.
pub record Connection (W : Type 0) : Type 0 where
  pub sink : W
  pub outcome : Result (Unit {0})

pub record Desk (W : Type 0) : Type 0 where
  pub state : State
  pub connections : List (Connection W)

-- The loop of `main` accepts a connection, or the stream of one has an item.
pub data Event (W : Type 0) : Type 0 where
  accepted : W → Event W
  arrived : ℕ → Result Message → Event W

abbrev pub is_running : {W : Type 0} → Option (Connection W) → Bool
is_running none = false
is_running (some c) = elim c.outcome [ ok u ↦ true | _ ↦ false ]

module _ {W : Type 0} (send : Message → Exec W (Unit {0})) where
  -- What a round leaves of the state and of the connection.
  abbrev pub after_round : Result (Unit {0}) × (State × W) → State × Connection W
  after_round (r, (state, w)) = (state, record { sink = w; outcome = r })

  -- A round of the loop in `handle_connection`, if the task still runs.
  abbrev pub round_of : Result (Unit {0}) → Result Message → State → W → State × Connection W
  round_of (ok u) item state w = after_round ((lift item >>= handle send) (state, w))
  round_of r item state w = after_round (r, (state, w))

  unfoldable pub deliver :
      ℕ → Result Message → State → List (Connection W) → State × List (Connection W)
  unfolding handle
  deliver k item state [] = (state, [])
  deliver zero item state (c ∷ cs) =
      let (state', c') = round_of c.outcome item state c.sink in (state', c' ∷ cs)
  deliver (suc k) item state (c ∷ cs) =
      let (state', cs') = deliver k item state cs in (state', c ∷ cs')

  unfoldable pub step : Event W → Desk W → Desk W
  unfolding deliver
  step (accepted w) d = record d {
    connections = d.connections ++ record { sink = w; outcome = ok tt } ∷ [];
  }
  step (arrived k item) d =
      let (state', cs) = deliver k item d.state d.connections in
      record { state = state'; connections = cs }

  unfoldable pub run : List (Event W) → Desk W → Desk W
  unfolding step
  run [] d = d
  run (e ∷ es) d = run es (step e d)
