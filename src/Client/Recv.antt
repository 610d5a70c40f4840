-- ===== src/Client/Recv.antt =====
-- `recv` of lib/src/client.rs, which hands on one message.
use mcp_server_allenheath_dl.Prelude.{
  ◌≤◌, ◌≡◌, refl, List, [], ◌∷◌, length, Result, Error, receive_failed, arith,
}
use mcp_server_allenheath_dl.Messages.{Message}
use mcp_server_allenheath_dl.Client.{
  Received, empty, message, failure, Broadcast, IsBroadcast, rx_loop,
}
use mcp_server_allenheath_dl.Client.Receiving.{messages, unread-rx_loop}

-- A call of `recv`: it awaits a message, or is done.
pub data Call (b : Broadcast) : Type 0 where
  awaiting : b.Receiver → Call b
  returned : Message → Call b
  failed : Error → Call b

module _ (b : Broadcast) where
  abbrev pub recv : b.Sender → Call b
  recv queue = awaiting (b.resubscribe queue)

  abbrev on_received : Received × b.Receiver → Call b
  on_received (empty, r) = awaiting r
  on_received (message m, r) = returned m
  on_received (failure, r) = failed receive_failed

  unfoldable pub poll_recv : b.Sender → Call b → Call b
  poll_recv queue (awaiting r) = on_received (b.recv queue r)
  poll_recv queue call = call

  -- What a call is to come to when these messages have arrived.
  abbrev first_of : List Message → Call b → Call b
  first_of [] call = call
  first_of (m ∷ ms) call = returned m

module _ (b : Broadcast) (laws : IsBroadcast b) where
  poll_recv_left :
      (queue : b.Sender) (r : b.Receiver) (ms : List Message)
      → laws.KeptUp queue r
      → laws.unread queue r ≡ ms
      → poll_recv b queue (awaiting r) ≡ first_of b ms (awaiting r)
  unfolding poll_recv
  poll_recv_left queue r [] kept left = rw (laws.recv_empty queue r kept left) refl
  poll_recv_left queue r (m ∷ ms) kept left =
      let (r', got, _, _) = laws.recv_next queue r m ms kept left in rw got refl

  -- When the receiving task has gone on over some items of the stream, no more than 128 of them
  -- messages, then `recv` returns the first of the messages when it is polled, and goes on waiting
  -- if there are none; what arrived before the call is not returned.
  poll_recv-first_of :
      (items : List (Result Message)) (queue : b.Sender)
      → length (messages items) ≤ 128
      → poll_recv b (rx_loop b items queue) (recv b queue)
        ≡ first_of b (messages items) (recv b queue)
  poll_recv-first_of items queue room =
      let r = b.resubscribe queue in
      let (kept, left) =
        unread-rx_loop b laws items queue r [] (laws.new_kept queue) (laws.new_unread queue)
          (omega (arith, room)) in
      poll_recv_left (rx_loop b items queue) r (messages items) kept left
