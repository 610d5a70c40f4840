-- ===== src/Client.antt =====
-- lib/src/client.rs: a client sends requests, and waits for the answers among the messages that its
-- receiving task broadcasts. The task, the client and the clock run interleaved: a run is a sequence
-- of events. The broadcast channel is the tokio crate's, and a parameter.
pub mod Answered
pub mod Waiting
pub mod Connect
pub mod Log
pub mod Receiving
pub mod Recv
use mcp_server_allenheath_dl.Prelude.{
  ℕ, Bool, All, ◌&&◌, ◌<◌, ◌≡◌, List, [], ◌∷◌, ◌++◌, Option, none, some, length, if◌then◌else◌,
  Result, ok, err, panic, stuck, Error, request_timeout, receive_failed, send_failed,
}
use mcp_server_allenheath_dl.Channels.{Channel, channel_eq}
use mcp_server_allenheath_dl.Channels.Names.{ChannelName}
use mcp_server_allenheath_dl.Messages.{
  Level, Message, get_channel_name, channel_name, get_send_level, send_level, get_fader_level,
  fader_level,
}

-- What `recv` finds: nothing yet, the next message, or an error (lagging behind, or a closed channel).
pub data Received : Type 0 where
  empty : Received
  message : Message → Received
  failure : Received

pub record Broadcast : Type 1 where
  pub Sender : Type 0
  pub Receiver : Type 0
  pub send : Message → Sender → Sender
  pub resubscribe : Sender → Receiver
  pub recv : Sender → Receiver → Received × Receiver

abbrev pub capacity : ℕ
capacity = 128

-- What the documentation of an open channel says: a receiver sees, in their order, the messages that
-- are sent after it subscribed, as long as no more than the capacity are unread.
pub record IsBroadcast (b : Broadcast) : Type 1 where
  -- The messages that the channel still holds for the receiver; and that it has dropped none.
  pub unread : b.Sender → b.Receiver → List Message
  pub KeptUp : b.Sender → b.Receiver → Type 0
  pub new_unread : (s : b.Sender) → unread s (b.resubscribe s) ≡ []
  pub new_kept : (s : b.Sender) → KeptUp s (b.resubscribe s)
  pub send_kept :
      (m : Message) (s : b.Sender) (r : b.Receiver)
      → KeptUp s r
      → length (unread s r) < capacity
      → KeptUp (b.send m s) r × (unread (b.send m s) r ≡ unread s r ++ m ∷ [])
  pub recv_empty :
      (s : b.Sender) (r : b.Receiver) → KeptUp s r → unread s r ≡ [] → b.recv s r ≡ (empty, r)
  pub recv_next :
      (s : b.Sender) (r : b.Receiver) (m : Message) (ms : List Message)
      → KeptUp s r
      → unread s r ≡ m ∷ ms
      → (r' : b.Receiver) × (b.recv s r ≡ (message m, r')) × (unread s r' ≡ ms) × KeptUp s r'
  -- Whether or not some are dropped, nothing is received that was not sent.
  pub send_all :
      (P : Message → Type 0) (m : Message) (s : b.Sender) (r : b.Receiver)
      → P m
      → All P (unread s r)
      → All P (unread (b.send m s) r)
  pub recv_all :
      (P : Message → Type 0) (s : b.Sender) (r : b.Receiver)
      → All P (unread s r)
      → All P (unread s (b.recv s r).1)
  pub recv_message :
      (P : Message → Type 0) (s : b.Sender) (r : b.Receiver) (m : Message)
      → All P (unread s r)
      → (b.recv s r).0 ≡ message m
      → P m

-- The patterns of the three `wait_until!`.
abbrev pub name_answer : Channel → Message → Option ChannelName
name_answer channel (channel_name c name) = if channel_eq c channel then some name else none
name_answer channel _ = none

abbrev pub send_level_answer : Channel × Channel → Message → Option Level
send_level_answer (channel, send) (send_level c s level) =
    if channel_eq c channel && channel_eq s send then some level else none
send_level_answer _ _ = none

abbrev pub fader_level_answer : Channel → Message → Option Level
fader_level_answer channel (fader_level c level) = if channel_eq c channel then some level else none
fader_level_answer channel _ = none

-- The requests that go with them.
abbrev pub name_request : Channel → Message
name_request channel = get_channel_name channel

abbrev pub send_level_request : Channel × Channel → Message
send_level_request (channel, send) = get_send_level channel send

abbrev pub fader_level_request : Channel → Message
fader_level_request channel = get_fader_level channel

-- The messages of `set_send_level` and `set_fader_level`, which wait for no answer.
abbrev pub set_send_level_request : Channel → Channel → Level → Message
set_send_level_request channel send level = send_level channel send level

abbrev pub set_fader_level_request : Channel → Level → Message
set_fader_level_request channel level = fader_level channel level

-- A message arrives, the client's task runs up to its next await, its timer runs out, or the
-- connection refuses a request.
pub data Event : Type 0 where
  arrive : Message → Event
  poll : Event
  elapse : Event
  broken : Event

module _ (b : Broadcast) (Q T : Type 0) where
  -- Where the client is: sending the requests that are left, at the head of the loop over the
  -- questions, or in `wait_until` for the first of them.
  pub data Place : Type 0 where
    sending : List Q → Place
    asking : Place
    waiting : b.Receiver → Place
    failed : Error → Place

  pub record Client : Type 0 where
    pub queue : b.Sender
    pub sent : List Message
    pub place : Place
    pub todo : List Q
    pub answers : List T

module _ (b : Broadcast) {Q T : Type 0} (request : Q → Message)
    (answer : Q → Message → Option T) where
  -- A call of `channel_names`; `send_level` and `fader_level` have one question each.
  abbrev pub start : b.Sender → List Q → Client b Q T
  start queue qs = record { queue = queue; sent = []; place = sending qs; todo = qs; answers = [] }

  -- `f(message)`: the answer that the loop over the questions goes on with, or none.
  abbrev pub settle : Option T → List Q → b.Receiver → Client b Q T → Client b Q T
  settle (some t) qs r c = record c { place = asking; todo = qs; answers = c.answers ++ t ∷ [] }
  settle none qs r c = record c { place = waiting r }

  -- A round of the loop in `wait_until`, for the question `q` before `qs`.
  abbrev pub look : Q → List Q → Received × b.Receiver → Client b Q T → Client b Q T
  look q qs (empty, r) c = record c { place = waiting r }
  look q qs (failure, r) c = record c { place = failed receive_failed }
  look q qs (message m, r) c = settle (answer q m) qs r c

  abbrev pub run_task : Place b Q T → List Q → Client b Q T → Client b Q T
  run_task (sending []) todo c = record c { place = asking }
  run_task (sending (q ∷ qs)) todo c = record c {
    sent = c.sent ++ request q ∷ [];
    place = sending qs;
  }
  run_task asking [] c = c
  run_task asking (q ∷ qs) c = record c { place = waiting (b.resubscribe c.queue) }
  run_task (waiting r) [] c = c
  run_task (waiting r) (q ∷ qs) c = look q qs (b.recv c.queue r) c
  run_task (failed e) todo c = c

  -- The timer runs during `wait_until`, and a request fails while it is sent.
  abbrev pub time_out : Place b Q T → Place b Q T
  time_out (waiting r) = failed request_timeout
  time_out p = p

  abbrev pub break_off : Place b Q T → Place b Q T
  break_off (sending (q ∷ qs)) = failed send_failed
  break_off p = p

  unfoldable pub step : Event → Client b Q T → Client b Q T
  step (arrive m) c = record c { queue = b.send m c.queue }
  step poll c = run_task c.place c.todo c
  step elapse c = record c { place = time_out c.place }
  step broken c = record c { place = break_off c.place }

  unfoldable pub run : List Event → Client b Q T → Client b Q T
  unfolding step
  run [] c = c
  run (e ∷ es) c = run es (step e c)

module _ (b : Broadcast) where
  -- The receiving task, on the items of the framed stream: an error is logged, and a panic ends the
  -- task; that the queue is then closed is left out. The client itself holds a receiver, so the `unwrap` of `send` does not panic while there is a
  -- client.
  unfoldable pub rx_loop : List (Result Message) → b.Sender → b.Sender
  rx_loop [] queue = queue
  rx_loop (ok m ∷ items) queue = rx_loop items (b.send m queue)
  rx_loop (err e ∷ items) queue = rx_loop items queue
  rx_loop (panic ∷ items) queue = queue
  rx_loop (stuck ∷ items) queue = queue

  abbrev pub incoming : b.Sender → b.Receiver
  incoming queue = b.resubscribe queue
