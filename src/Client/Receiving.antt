-- ===== src/Client/Receiving.antt =====
-- The receiving task of lib/src/client.rs, and what a receiver sees of it.
use mcp_server_allenheath_dl.Prelude.{
  ◌+◌, ◌≤◌, ◌≡◌, refl, sym, ap, ◌∙◌, List, [], ◌∷◌, ◌++◌, append_assoc, append-nil, length,
  length-append, Option, Result, ok, err, panic, stuck, arith,
}
use mcp_server_allenheath_dl.Messages.{Message}
use mcp_server_allenheath_dl.Client.{
  Broadcast, IsBroadcast, capacity, Event, arrive, Client, run, rx_loop, incoming,
}

-- The messages among the items of the stream, up to a panic.
abbrev pub messages : List (Result Message) → List Message
messages [] = []
messages (ok m ∷ items) = m ∷ messages items
messages (err e ∷ items) = messages items
messages (panic ∷ items) = []
messages (stuck ∷ items) = []

abbrev pub arrivals : List (Result Message) → List Event
arrivals [] = []
arrivals (ok m ∷ items) = arrive m ∷ arrivals items
arrivals (err e ∷ items) = arrivals items
arrivals (panic ∷ items) = []
arrivals (stuck ∷ items) = []

module _ (b : Broadcast) {Q T : Type 0} (request : Q → Message)
    (answer : Q → Message → Option T) where
  -- The task and the events of a client are the same: it broadcasts each message of the stream, in
  -- their order, skips the errors, and ends at a panic.
  run-arrivals :
      (items : List (Result Message)) (c : Client b Q T)
      → run b request answer (arrivals items) c ≡ record c { queue = rx_loop b items c.queue }
  unfolding run rx_loop
  run-arrivals [] c = refl
  run-arrivals (ok m ∷ items) c = run-arrivals items (record c { queue = b.send m c.queue })
  run-arrivals (err e ∷ items) c = run-arrivals items c
  run-arrivals (panic ∷ items) c = refl
  run-arrivals (stuck ∷ items) c = refl

module _ (b : Broadcast) (laws : IsBroadcast b) where
  pub unread-rx_loop :
      (items : List (Result Message)) (queue : b.Sender) (r : b.Receiver) (before : List Message)
      → laws.KeptUp queue r
      → laws.unread queue r ≡ before
      → length before + length (messages items) ≤ capacity
      → laws.KeptUp (rx_loop b items queue) r
        × (laws.unread (rx_loop b items queue) r ≡ before ++ messages items)
  unfolding rx_loop
  unread-rx_loop [] queue r before kept left room = (kept, left ∙ sym (append-nil before))
  unread-rx_loop (ok m ∷ items) queue r before kept left room =
      let (kept', left') = laws.send_kept m queue r kept (rw left (omega (arith, room))) in
      let (last_kept, last_left) =
        unread-rx_loop items (b.send m queue) r (before ++ m ∷ []) kept'
          (left' ∙ ap (λ l. l ++ m ∷ []) left)
          (omega (arith, room, length-append before (m ∷ []))) in
      (last_kept, last_left ∙ append_assoc before (m ∷ []) (messages items))
  unread-rx_loop (err e ∷ items) queue r before kept left room =
      unread-rx_loop items queue r before kept left room
  unread-rx_loop (panic ∷ items) queue r before kept left room =
      (kept, left ∙ sym (append-nil before))
  unread-rx_loop (stuck ∷ items) queue r before kept left room =
      (kept, left ∙ sym (append-nil before))

  -- A receiver that `incoming` gives has before it the messages that the receiving task then takes from
  -- the stream, all of them and in their order, as long as these are no more than 128.
  unread-incoming :
      (items : List (Result Message)) (queue : b.Sender)
      → length (messages items) ≤ 128
      → laws.unread (rx_loop b items queue) (incoming b queue) ≡ messages items
  unread-incoming items queue room =
      (unread-rx_loop items queue (incoming b queue) [] (laws.new_kept queue)
        (laws.new_unread queue) (omega (arith, room))).1
