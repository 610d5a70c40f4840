-- ===== src/System/Turns.antt =====
-- Turns of the client of lib/src/client.rs in which it has nothing to send, among all that runs with it.
use mcp_server_allenheath_dl.Prelude.{
  ℕ, zero, suc, replicate, ◌≡◌, ◌∙◌, refl, sym, ap, List, [], ◌∷◌, ◌++◌, Option,
}
use mathlib.Core.Path.{subst}
use mcp_server_allenheath_dl.Messages.{Message}
use mcp_server_allenheath_dl.MidiStream.{Midi}
use mcp_server_allenheath_dl.Client.{
  Broadcast, IsBroadcast, Place, sending, asking, waiting, failed, arrive, poll,
}
use mcp_server_allenheath_dl.Client
use mcp_server_allenheath_dl.System.Whole.{Move, task, Whole, run_client, step, run}

module _ (midi : Midi) (b : Broadcast) {Q T : Type 0} (request : Q → Message)
    (answer : Q → Message → Option T) where
  -- A turn of the task sends nothing there.
  abbrev pub IsIdle : Place b Q T → Type 0
  IsIdle (sending (q ∷ qs)) = ⊥
  IsIdle _ = Unit

  abbrev pub poll_of : Client.Client b Q T → Client.Client b Q T
  poll_of c = Client.step b request answer poll c

  pub run_client_idle :
      (p : Place b Q T) (w : Whole midi.State b Q T)
      → IsIdle p
      → run_client midi b request answer p w ≡ record w { caller = poll_of w.caller }
  run_client_idle (sending []) w h = refl
  run_client_idle (sending (q ∷ qs)) w h = absurd h
  run_client_idle asking w h = refl
  run_client_idle (waiting r) w h = refl
  run_client_idle (failed e) w h = refl

  -- Turns in which the client finds nothing change nothing.
  pub run-replicate :
      (n : ℕ) (rest : List Move) (w : Whole midi.State b Q T)
      → IsIdle w.caller.place
      → poll_of w.caller ≡ w.caller
      → run midi b request answer (replicate n task ++ rest) w ≡ run midi b request answer rest w
  unfolding run
  run-replicate zero rest w idle still = refl
  run-replicate (suc n) rest w idle still =
      ap (run midi b request answer (replicate n task ++ rest))
        (run_client_idle w.caller.place w idle ∙ ap (λ c. record w { caller = c }) still)
      ∙ run-replicate n rest w idle still

  -- Where the client has come to by its own turns.
  pub caller-run :
      (n : ℕ) (w : Whole midi.State b Q T) (c : Client.Client b Q T)
      → w.caller ≡ c
      → IsIdle c.place
      → poll_of c ≡ c
      → (run midi b request answer (replicate n task) w).caller ≡ c
  unfolding run
  caller-run zero w c here idle still = here
  caller-run (suc n) w c here idle still =
      let idle_there = subst (λ x. IsIdle x.place) (sym here) idle in
      caller-run n (step midi b request answer task w) c
        (ap (λ x. x.caller) (run_client_idle w.caller.place w idle_there) ∙ ap poll_of here ∙ still)
        idle still
