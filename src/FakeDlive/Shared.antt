-- ===== src/FakeDlive/Shared.antt =====
-- What the connections to the desk of fake-dlive/src/main.rs see of each other.
use mcp_server_allenheath_dl.Prelude.{
  ℕ, zero, suc, ◌≡◌, ◌∙◌, refl, ap, sym, Bool, true, List, [], ◌∷◌, ◌++◌, get_elem?, update_at,
  some, Result, ok, err, panic, stuck,
}
use mcp_server_allenheath_dl.Prelude.Exec.{Exec}
use mcp_server_allenheath_dl.Channels.{Channel}
use mcp_server_allenheath_dl.Messages.{
  Message, get_send_level, send_level, get_fader_level, fader_level,
}
use mcp_server_allenheath_dl.FakeDlive.{State, send_level_of, fader_level_of, handle, send_message}
use mcp_server_allenheath_dl.FakeDlive.Levels.{
  fold, set_send, set_fader, one_send_level, one_fader_level,
}
use mcp_server_allenheath_dl.FakeDlive.Connections.{
  Connection, Desk, Event, accepted, arrived, is_running, round_of, deliver, step, run,
}

module _ {W : Type 0} (send : Message → Exec W (Unit {0})) where
  -- The message that an event brings to a task that runs.
  abbrev brought : Bool → Result Message → List Message
  brought true (ok m) = m ∷ []
  brought _ _ = []

  abbrev heard_at : Event W → Desk W → List Message
  heard_at (accepted w) d = []
  heard_at (arrived k item) d = brought (is_running (get_elem? d.connections k)) item

  -- All messages that some task took, in the order in which they came.
  abbrev pub heard : List (Event W) → Desk W → List Message
  heard [] d = []
  heard (e ∷ es) d = heard_at e d ++ heard es (step send e d)

  fold-append :
      {A : Type 0} (change : Message → A → A) (ms ns : List Message) (a : A)
      → fold change (ms ++ ns) a ≡ fold change ns (fold change ms a)
  fold-append change [] ns a = refl
  fold-append change (m ∷ ms) ns a = fold-append change ms ns (change m a)

  module _ {A : Type 0} (view : State → A) (change : Message → A → A)
      (one : (m : Message) (s : State × W) → view (handle send m s).1.0 ≡ change m (view s.0)) where
    round-view :
        (r : Result (Unit {0})) (item : Result Message) (state : State) (w : W)
        → view (round_of send r item state w).0
          ≡ fold change
              (brought (is_running (some (record { sink = w; outcome = r }))) item)
              (view state)
    round-view (ok u) (ok m) state w = one m (state, w)
    round-view (ok u) (err e) state w = refl
    round-view (ok u) panic state w = refl
    round-view (ok u) stuck state w = refl
    round-view (err e) item state w = refl
    round-view panic item state w = refl
    round-view stuck item state w = refl

    deliver-view :
        (k : ℕ) (item : Result Message) (state : State) (cs : List (Connection W))
        → view (deliver send k item state cs).0
          ≡ fold change (brought (is_running (get_elem? cs k)) item) (view state)
    unfolding deliver
    deliver-view k item state [] = refl
    deliver-view zero item state (c ∷ cs) = round-view c.outcome item state c.sink
    deliver-view (suc k) item state (c ∷ cs) = deliver-view k item state cs

    step-view :
        (e : Event W) (d : Desk W)
        → view (step send e d).state ≡ fold change (heard_at e d) (view d.state)
    unfolding step
    step-view (accepted w) d = refl
    step-view (arrived k item) d = deliver-view k item d.state d.connections

    run-view :
        (es : List (Event W)) (d : Desk W)
        → view (run send es d).state ≡ fold change (heard es d) (view d.state)
    unfolding run
    run-view [] d = refl
    run-view (e ∷ es) d =
        run-view es (step send e d)
        ∙ ap (fold change (heard es (step send e d))) (step-view e d)
        ∙ sym (fold-append change (heard_at e d) (heard es (step send e d)) (view d.state))

  abbrev send_to : Message → Connection W → Connection W
  send_to m c = let (r, w) = send m c.sink in record { sink = w; outcome = r }

  -- The desk after it has answered on a connection.
  abbrev pub sent_on : ℕ → Message → Desk W → Desk W
  sent_on k m d = record d { connections = update_at k (send_to m) d.connections }

  -- A question that is answered with a message, whatever the sink.
  abbrev Answers : State → Message → Message → Type 0
  Answers state m answer = (w : W) → handle send m (state, w) ≡ send_message send answer (state, w)

  round-Answers :
      (m answer : Message) (state : State) (r : Result (Unit {0})) (w : W)
      → Answers state m answer
      → is_running (some (record { sink = w; outcome = r })) ≡ true
      → round_of send r (ok m) state w
        ≡ (state, record { sink = (send answer w).1; outcome = (send answer w).0 })
  round-Answers m answer state (ok u) w h running = rw (h w) refl
  round-Answers m answer state (err e) w h running = cc
  round-Answers m answer state panic w h running = cc
  round-Answers m answer state stuck w h running = cc

  deliver-Answers :
      (k : ℕ) (m answer : Message) (state : State) (cs : List (Connection W))
      → Answers state m answer
      → is_running (get_elem? cs k) ≡ true
      → deliver send k (ok m) state cs ≡ (state, update_at k (send_to answer) cs)
  unfolding deliver
  deliver-Answers k m answer state [] h running = refl
  deliver-Answers zero m answer state (c ∷ cs) h running =
      rw (round-Answers m answer state c.outcome c.sink h running) refl
  deliver-Answers (suc k) m answer state (c ∷ cs) h running =
      rw (deliver-Answers k m answer state cs h running) refl

  -- Connections of any number send their messages to the desk, in any order, and some of them may fail.
  -- A question for the level of a channel in a send, or for its fader, on a connection whose task still
  -- runs is answered there with the last level that was set on any connection while its task ran, or
  -- else the level from before; and the levels and the other connections stay.
  pub run-last_level :
      (es : List (Event W)) (d : Desk W) (k : ℕ) (c s : Channel)
      → is_running (get_elem? (run send es d).connections k) ≡ true
      → (step send (arrived k (ok (get_send_level c s))) (run send es d)
          ≡ sent_on k
              (send_level c s (fold (set_send c s) (heard es d) (send_level_of c s d.state)))
              (run send es d))
        × (step send (arrived k (ok (get_fader_level c))) (run send es d)
            ≡ sent_on k
                (fader_level c (fold (set_fader c) (heard es d) (fader_level_of c d.state)))
                (run send es d))
  unfolding step handle
  run-last_level es d k c s running =
      let now = run send es d in
      (
        rw
            (
              sym (run-view (send_level_of c s) (set_send c s) (one_send_level send c s) es d),
              deliver-Answers k (get_send_level c s) _ now.state now.connections (λ w. refl)
                  running,
            )
            refl,
        rw
            (
              sym (run-view (fader_level_of c) (set_fader c) (one_fader_level send c) es d),
              deliver-Answers k (get_fader_level c) _ now.state now.connections (λ w. refl) running,
            )
            refl,
      )
