-- ===== src/Tools/Inspector.antt =====
-- `main` of lib/src/bin/inspect-dlive.rs: it sends its requests, and then prints what arrives.
use mcp_server_allenheath_dl.Prelude.{
  ℕ, suc, All, ◌+◌, ◌≤◌, ◌≡◌, ◌∙◌, refl, sym, ap, List, [], ◌∷◌, ◌++◌, append_assoc, append-nil,
  map, length, length-append, replicate, Error, receive_failed, send_failed, arith,
}
use mcp_server_allenheath_dl.Messages.{Message}
use mcp_server_allenheath_dl.Client.{
  Received, empty, message, failure, Broadcast, IsBroadcast, capacity, Event, arrive, poll, elapse,
  broken,
}
use mcp_server_allenheath_dl.Tools.{inspect_requests}

-- Where it is: sending, before `incoming`; in the loop; or at its end, with an error.
pub data Place (b : Broadcast) : Type 0 where
  requesting : List Message → Place b
  listening : b.Receiver → Place b
  stopped : Error → Place b

pub record Inspector (b : Broadcast) : Type 0 where
  pub queue : b.Sender
  pub sent : List Message
  pub place : Place b
  pub printed : List Message

-- The turns that the tool takes; and an event that is not the end of the connection.
abbrev pub polls : List Event → ℕ
polls [] = 0
polls (poll ∷ es) = suc (polls es)
polls (_ ∷ es) = polls es

abbrev pub IsUnbroken : Event → Type 0
IsUnbroken broken = ⊥
IsUnbroken _ = Unit

module _ (b : Broadcast) where
  -- `println!` of what `incoming.recv().await?` gives.
  abbrev pub print : Received × b.Receiver → Inspector b → Inspector b
  print (empty, r) i = record i { place = listening r }
  print (message m, r) i = record i { place = listening r; printed = i.printed ++ m ∷ [] }
  print (failure, r) i = record i { place = stopped receive_failed }

  abbrev run_main : Place b → Inspector b → Inspector b
  run_main (requesting []) i = record i { place = listening (b.resubscribe i.queue) }
  run_main (requesting (m ∷ ms)) i = record i { place = requesting ms; sent = i.sent ++ m ∷ [] }
  run_main (listening r) i = print (b.recv i.queue r) i
  run_main (stopped e) i = i

  abbrev pub break_off : Place b → Place b
  break_off (requesting (m ∷ ms)) = stopped send_failed
  break_off place = place

  unfoldable pub step : Event → Inspector b → Inspector b
  step (arrive m) i = record i { queue = b.send m i.queue }
  step poll i = run_main i.place i
  step elapse i = i
  step broken i = record i { place = break_off i.place }

  unfoldable pub run : List Event → Inspector b → Inspector b
  unfolding step
  run [] i = i
  run (e ∷ es) i = run es (step e i)

  abbrev pub main : b.Sender → Inspector b
  main queue = record {
    queue = queue;
    sent = [];
    place = requesting inspect_requests;
    printed = [];
  }

module _ (b : Broadcast) (laws : IsBroadcast b) where
  abbrev pub at : b.Sender → List Message → Place b → List Message → Inspector b
  at queue sent place printed = record {
    queue = queue;
    sent = sent;
    place = place;
    printed = printed;
  }

  abbrev sent_to : List Message → b.Sender → b.Sender
  sent_to [] queue = queue
  sent_to (m ∷ ms) queue = sent_to ms (b.send m queue)

  run-append :
      (es es' : List Event) (i : Inspector b) → run b (es ++ es') i ≡ run b es' (run b es i)
  unfolding run
  run-append [] es' i = refl
  run-append (e ∷ es) es' i = run-append es es' (step b e i)

  run-arrive :
      (ms : List Message) (queue : b.Sender) (sent : List Message) (place : Place b)
      (printed : List Message)
      → run b (map arrive ms) (at queue sent place printed)
        ≡ at (sent_to ms queue) sent place printed
  unfolding run step
  run-arrive [] queue sent place printed = refl
  run-arrive (m ∷ ms) queue sent place printed = run-arrive ms (b.send m queue) sent place printed

  unread-sent_to :
      (ms before : List Message) (queue : b.Sender) (r : b.Receiver)
      → laws.KeptUp queue r
      → laws.unread queue r ≡ before
      → length before + length ms ≤ capacity
      → laws.KeptUp (sent_to ms queue) r × (laws.unread (sent_to ms queue) r ≡ before ++ ms)
  unread-sent_to [] before queue r kept left room = (kept, left ∙ sym (append-nil before))
  unread-sent_to (m ∷ ms) before queue r kept left room =
      let (kept', left') = laws.send_kept m queue r kept (rw left (omega (arith, room))) in
      let (last_kept, last_left) =
        unread-sent_to ms (before ++ m ∷ []) (b.send m queue) r kept'
          (left' ∙ ap (λ l. l ++ m ∷ []) left)
          (omega (arith, room, length-append before (m ∷ []))) in
      (last_kept, last_left ∙ append_assoc before (m ∷ []) ms)

  -- It prints what it has yet to read.
  run-printed :
      (ms : List Message) (queue : b.Sender) (r : b.Receiver) (sent printed : List Message)
      → laws.KeptUp queue r
      → laws.unread queue r ≡ ms
      → (run b (replicate (length ms) poll) (at queue sent (listening r) printed)).printed
        ≡ printed ++ ms
  unfolding run step
  run-printed [] queue r sent printed kept left = sym (append-nil printed)
  run-printed (m ∷ ms) queue r sent printed kept left =
      let (r', got, left', kept') = laws.recv_next queue r m ms kept left in
      ap
        (λ o.
          (run b (replicate (length ms) poll)
            (print b o (at queue sent (listening r) printed))).printed)
        got
      ∙ run-printed ms queue r' sent (printed ++ m ∷ []) kept' left'
      ∙ append_assoc printed (m ∷ []) ms

  run-listening :
      (before : b.Sender) (ms sent : List Message)
      → length ms ≤ 128
      → (run b
          (poll ∷ (map arrive ms ++ replicate (length ms) poll))
          (at before sent (requesting []) [])).printed
        ≡ ms
  unfolding run step
  run-listening before ms sent room =
      let r = b.resubscribe before in
      let (kept, left) =
        unread-sent_to ms [] before r (laws.new_kept before) (laws.new_unread before)
          (omega (arith, room)) in
      ap (λ i. i.printed)
        (run-append (map arrive ms) (replicate (length ms) poll) (at before sent (listening r) [])
          ∙ ap (run b (replicate (length ms) poll)) (run-arrive ms before sent (listening r) []))
      ∙ run-printed ms (sent_to ms before) r sent [] kept left

  -- What arrives in the meantime goes to the queue.
  abbrev queue_after : List Event → b.Sender → b.Sender
  queue_after [] queue = queue
  queue_after (arrive m ∷ es) queue = queue_after es (b.send m queue)
  queue_after (_ ∷ es) queue = queue_after es queue

  -- A turn for each request sends them all, whatever arrives between.
  run-requesting :
      (es : List Event) (ms sent : List Message) (queue : b.Sender)
      → All IsUnbroken es
      → polls es ≡ length ms
      → run b es (at queue sent (requesting ms) [])
        ≡ at (queue_after es queue) (sent ++ ms) (requesting []) []
  unfolding run step
  run-requesting [] [] sent queue whole turns =
      ap (λ l. at queue l (requesting []) []) (sym (append-nil sent))
  run-requesting [] (m ∷ ms) sent queue whole turns = absurd (omega (arith, turns))
  run-requesting (arrive m ∷ es) ms sent queue (w, whole) turns =
      run-requesting es ms sent (b.send m queue) whole turns
  run-requesting (poll ∷ es) [] sent queue (w, whole) turns = absurd (omega (arith, turns))
  run-requesting (poll ∷ es) (m ∷ ms) sent queue (w, whole) turns =
      run-requesting es ms (sent ++ m ∷ []) queue whole (omega (arith, turns))
      ∙ ap (λ l. at (queue_after es queue) l (requesting []) []) (append_assoc sent (m ∷ []) ms)
  run-requesting (elapse ∷ es) ms sent queue (w, whole) turns =
      run-requesting es ms sent queue whole turns
  run-requesting (broken ∷ es) ms sent queue (w, whole) turns = absurd w

  -- From its start, the tool takes one turn for each of its requests, and subscribes in the next; if no
  -- request fails, then whatever has arrived until then, it has sent all of its requests and prints
  -- none of that; and of what arrives after it, if that is no more than 128 messages before the tool
  -- runs again, it prints all, in its order.
  pub run-subscribed :
      (queue : b.Sender) (es : List Event) (ms : List Message)
      → All IsUnbroken es
      → polls es ≡ length inspect_requests
      → length ms ≤ 128
      → ((run b (es ++ poll ∷ (map arrive ms ++ replicate (length ms) poll)) (main b queue)).printed
          ≡ ms)
        × ((run b (es ++ poll ∷ []) (main b queue)).sent ≡ inspect_requests)
  unfolding run step
  run-subscribed queue es ms whole turns room =
      let before = queue_after es queue in
      let requested = run-requesting es inspect_requests [] queue whole turns in
      (
        ap (λ i. i.printed)
              (run-append es (poll ∷ (map arrive ms ++ replicate (length ms) poll)) (main b queue)
                ∙ ap (run b (poll ∷ (map arrive ms ++ replicate (length ms) poll))) requested)
            ∙ run-listening before ms inspect_requests room,
        ap (λ i. i.sent)
            (run-append es (poll ∷ []) (main b queue) ∙ ap (run b (poll ∷ [])) requested),
      )
