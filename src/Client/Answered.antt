-- ===== src/Client/Answered.antt =====
-- Whatever the order of events, the client of lib/src/client.rs takes as answers only messages that
-- answer its questions, one for each, in the questions' order.
use mcp_server_allenheath_dl.Prelude.{
  ◌≡◌, refl, sym, ap, ◌∙◌, List, [], ◌∷◌, ◌++◌, Option, none, some, All, append_assoc,
}
use mcp_server_allenheath_dl.Messages.{Message}
use mcp_server_allenheath_dl.Client.{
  Received, empty, message, failure, Broadcast, IsBroadcast, Event, arrive, poll, elapse, broken,
  Place, sending, asking, waiting, failed, Client, start, settle, look, run_task, time_out,
  break_off, step, run,
}

module _ {Q T : Type 0} (answer : Q → Message → Option T) (P : Message → Type 0) where
  -- The answers, one for each question, are taken from messages that have the property.
  abbrev pub Answers : List Q → List T → Type 0
  Answers [] [] = Unit
  Answers [] (t ∷ ts) = ⊥
  Answers (q ∷ qs) [] = ⊥
  Answers (q ∷ qs) (t ∷ ts) = ((m : Message) × P m × (answer q m ≡ some t)) × Answers qs ts

  Answers-append :
      (qs : List Q) (ts : List T) (q : Q) (t : T)
      → Answers qs ts
      → ((m : Message) × P m × (answer q m ≡ some t))
      → Answers (qs ++ q ∷ []) (ts ++ t ∷ [])
  Answers-append [] [] q t h a = (a, tt)
  Answers-append [] (u ∷ ts) q t h a = absurd h
  Answers-append (p ∷ qs) [] q t h a = absurd h
  Answers-append (p ∷ qs) (u ∷ ts) q t (hu, h) a = (hu, Answers-append qs ts q t h a)

-- A message that arrives has the property.
abbrev pub Brings : (Message → Type 0) → Event → Type 0
Brings P (arrive m) = P m
Brings P _ = Unit

module _ (b : Broadcast) (laws : IsBroadcast b) {Q T : Type 0} (request : Q → Message)
    (answer : Q → Message → Option T) (P : Message → Type 0) (qs : List Q) where
  abbrev Sees : Place b Q T → b.Sender → Type 0
  Sees (waiting r) queue = All P (laws.unread queue r)
  Sees _ queue = Unit

  -- The questions before those that are left are answered.
  abbrev pub Inv : Client b Q T → Type 0
  Inv c =
      ((asked : List Q) × (qs ≡ asked ++ c.todo) × Answers answer P asked c.answers)
      × Sees c.place c.queue

  Inv-settle :
      (q : Q) (rest : List Q) (r : b.Receiver) (c : Client b Q T) (m : Message) (told : Option T)
      → answer q m ≡ told
      → c.todo ≡ q ∷ rest
      → P m
      → All P (laws.unread c.queue (b.recv c.queue r).1)
      → Inv c
      → Inv (settle b request answer told rest (b.recv c.queue r).1 c)
  Inv-settle q rest r c m none e left hm sees (h, _) = (h, sees)
  Inv-settle q rest r c m (some t) e left hm sees ((asked, split, h), _) = (
    (
      asked ++ q ∷ [],
      split ∙ ap (λ l. asked ++ l) left ∙ sym (append_assoc asked (q ∷ []) rest),
      Answers-append answer P asked c.answers q t h (m, hm, e),
    ),
    tt,
  )

  Inv-look :
      (q : Q) (rest : List Q) (r : b.Receiver) (c : Client b Q T) (got : Received)
      → (b.recv c.queue r).0 ≡ got
      → c.todo ≡ q ∷ rest
      → All P (laws.unread c.queue r)
      → Inv c
      → Inv (look b request answer q rest (got, (b.recv c.queue r).1) c)
  Inv-look q rest r c empty e left sees ((asked, split, h), _) =
      ((asked, split, h), laws.recv_all P c.queue r sees)
  Inv-look q rest r c failure e left sees ((asked, split, h), _) = ((asked, split, h), tt)
  Inv-look q rest r c (message m) e left sees h =
      Inv-settle q rest r c m (answer q m) refl left (laws.recv_message P c.queue r m sees e)
        (laws.recv_all P c.queue r sees) h

  Inv-run_task :
      (place : Place b Q T) (todo : List Q) (c : Client b Q T)
      → c.place ≡ place
      → c.todo ≡ todo
      → Sees place c.queue
      → Inv c
      → Inv (run_task b request answer place todo c)
  Inv-run_task (sending []) todo c e left sees (h, _) = (h, tt)
  Inv-run_task (sending (q ∷ rest)) todo c e left sees (h, _) = (h, tt)
  Inv-run_task asking [] c e left sees h = h
  Inv-run_task asking (q ∷ rest) c e left sees (h, _) = (h, rw (laws.new_unread c.queue) tt)
  Inv-run_task (waiting r) [] c e left sees h = h
  Inv-run_task (waiting r) (q ∷ rest) c e left sees h =
      Inv-look q rest r c (b.recv c.queue r).0 refl left sees h
  Inv-run_task (failed x) todo c e left sees h = h

  Sees-send :
      (place : Place b Q T) (m : Message) (queue : b.Sender)
      → P m
      → Sees place queue
      → Sees place (b.send m queue)
  Sees-send (waiting r) m queue hm sees = laws.send_all P m queue r hm sees
  Sees-send _ m queue hm sees = tt

  Sees-time_out :
      (place : Place b Q T) (queue : b.Sender)
      → Sees place queue
      → Sees (time_out b request answer place) queue
  Sees-time_out (waiting r) queue sees = tt
  Sees-time_out _ queue sees = tt

  Sees-break_off :
      (place : Place b Q T) (queue : b.Sender)
      → Sees place queue
      → Sees (break_off b request answer place) queue
  Sees-break_off (sending []) queue sees = tt
  Sees-break_off (sending (q ∷ rest)) queue sees = tt
  Sees-break_off (waiting r) queue sees = sees
  Sees-break_off _ queue sees = tt

  pub Inv-step :
      (e : Event) (c : Client b Q T) → Brings P e → Inv c → Inv (step b request answer e c)
  unfolding step
  Inv-step (arrive m) c hm (h, sees) = (h, Sees-send c.place m c.queue hm sees)
  Inv-step poll c hm (h, sees) = Inv-run_task c.place c.todo c refl refl sees (h, sees)
  Inv-step elapse c hm (h, sees) = (h, Sees-time_out c.place c.queue sees)
  Inv-step broken c hm (h, sees) = (h, Sees-break_off c.place c.queue sees)

  Inv-run :
      (es : List Event) (c : Client b Q T)
      → All (Brings P) es
      → Inv c
      → Inv (run b request answer es c)
  unfolding run
  Inv-run [] c h inv = inv
  Inv-run (e ∷ es) c (he, h) inv = Inv-run es (step b request answer e c) h (Inv-step e c he inv)

  -- If every message that arrives in a run has a property, then the questions that are no longer left
  -- have one answer each, in their order, taken from a message that answers the question and has the
  -- property.
  pub run-Answers :
      (queue : b.Sender) (es : List Event)
      → All (Brings P) es
      → (asked : List Q) × (qs
          ≡ asked ++ (run b request answer es (start b request answer queue qs)).todo)
        × Answers answer P asked (run b request answer es (start b request answer queue qs)).answers
  run-Answers queue es h = (Inv-run es (start b request answer queue qs) h (([], refl, tt), tt)).0
