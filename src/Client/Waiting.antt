-- ===== src/Client/Waiting.antt =====
-- `wait_until` of lib/src/client.rs: an answer that arrives while the client waits is found, and one
-- that arrives between two waits is not.
use mcp_server_allenheath_dl.Prelude.{
  ℕ, zero, suc, ◌≡◌, refl, ap, ◌∙◌, List, [], ◌∷◌, ◌++◌, Option, none, some, All, length, replicate,
  arith, request_timeout,
}
use mcp_server_allenheath_dl.Messages.{Message}
use mcp_server_allenheath_dl.Client.{
  empty, message, Broadcast, IsBroadcast, arrive, poll, elapse, Place, asking, waiting, failed,
  Client, step, run,
}

-- A client at a place, with the questions that are left.
abbrev pub client :
    {b : Broadcast} {Q T : Type 0}
    → b.Sender
    → List Message
    → List T
    → Place b Q T
    → List Q
    → Client b Q T
client queue sent ts place qs = record {
  queue = queue;
  sent = sent;
  place = place;
  todo = qs;
  answers = ts;
}

module _ (b : Broadcast) (laws : IsBroadcast b) {Q T : Type 0} (request : Q → Message)
    (answer : Q → Message → Option T) where
  poll_other :
      (queue : b.Sender) (sent : List Message) (ts : List T) (q : Q) (qs : List Q)
      (r r' : b.Receiver) (x : Message)
      → b.recv queue r ≡ (message x, r')
      → answer q x ≡ none
      → step b request answer poll (client queue sent ts (waiting r) (q ∷ qs))
        ≡ client queue sent ts (waiting r') (q ∷ qs)
  unfolding step
  poll_other queue sent ts q qs r r' x got other = rw (got, other) refl

  poll_empty :
      (queue : b.Sender) (sent : List Message) (ts : List T) (q : Q) (qs : List Q) (r : b.Receiver)
      → b.recv queue r ≡ (empty, r)
      → step b request answer poll (client queue sent ts (waiting r) (q ∷ qs))
        ≡ client queue sent ts (waiting r) (q ∷ qs)
  unfolding step
  poll_empty queue sent ts q qs r got = rw got refl

  -- If the messages that a waiting client has yet to see, of which none were dropped, are some that do
  -- not answer its question and then one that does, it has the answer after one poll for each of them,
  -- and goes on to the next question.
  pub run-found :
      (queue : b.Sender) (sent : List Message) (ts : List T) (q : Q) (qs : List Q) (r : b.Receiver)
      (before after : List Message) (m : Message) (t : T)
      → laws.KeptUp queue r
      → laws.unread queue r ≡ before ++ m ∷ after
      → All (λ x. answer q x ≡ none) before
      → answer q m ≡ some t
      → run b request answer
          (replicate (suc (length before)) poll)
          (client queue sent ts (waiting r) (q ∷ qs))
        ≡ client queue sent (ts ++ t ∷ []) asking qs
  unfolding run
  run-found queue sent ts q qs r [] after m t kept left none_before told =
      let (r', got, _, _) = laws.recv_next queue r m after kept left in rw (got, told) refl
  run-found queue sent ts q qs r (x ∷ before) after m t kept left (other, none_before) told =
      let (r', got, left', kept') = laws.recv_next queue r x (before ++ m ∷ after) kept left in
      ap (run b request answer (replicate (suc (length before)) poll))
        (poll_other queue sent ts q qs r r' x got other)
      ∙ run-found queue sent ts q qs r' before after m t kept' left' none_before told

  -- A client that sees nothing goes on waiting.
  run-idle :
      (n : ℕ) (queue : b.Sender) (sent : List Message) (ts : List T) (q : Q) (qs : List Q)
      (r : b.Receiver)
      → laws.KeptUp queue r
      → laws.unread queue r ≡ []
      → run b request answer (replicate n poll) (client queue sent ts (waiting r) (q ∷ qs))
        ≡ client queue sent ts (waiting r) (q ∷ qs)
  unfolding run
  run-idle zero queue sent ts q qs r kept left = refl
  run-idle (suc n) queue sent ts q qs r kept left =
      ap (run b request answer (replicate n poll))
        (poll_empty queue sent ts q qs r (laws.recv_empty queue r kept left))
      ∙ run-idle n queue sent ts q qs r kept left

  -- If a client at the head of its loop subscribes, the answer to its question arrives and then any
  -- other message, it takes the answer and subscribes anew for its next question, then it never sees
  -- the second message: after any number of polls it still waits, and its timer runs out.
  pub run-lost :
      (n : ℕ) (queue : b.Sender) (sent : List Message) (ts : List T) (q q' : Q) (qs : List Q)
      (m m' : Message) (t : T)
      → answer q m ≡ some t
      → run b request answer (elapse ∷ []) (
          run b request answer (replicate n poll) (
            run b request answer
              (poll ∷ arrive m ∷ arrive m' ∷ poll ∷ poll ∷ [])
              (client queue sent ts asking (q ∷ q' ∷ qs))))
        ≡ client (b.send m' (b.send m queue)) sent (ts ++ t ∷ []) (failed request_timeout) (q' ∷ qs)
  unfolding run
  run-lost n queue sent ts q q' qs m m' t told =
      let r = b.resubscribe queue in
      let none_yet = laws.new_unread queue in
      let (kept, one) =
        laws.send_kept m queue r (laws.new_kept queue) (rw none_yet (omega arith)) in
      let one_left : laws.unread (b.send m queue) r ≡ m ∷ [] = rw none_yet at one in
      let (kept', two) = laws.send_kept m' (b.send m queue) r kept (rw one_left (omega arith)) in
      let two_left : laws.unread (b.send m' (b.send m queue)) r ≡ m ∷ m' ∷ [] =
        rw one_left at two in
      let last = b.send m' (b.send m queue) in
      let (r', got, _, _) = laws.recv_next last r m (m' ∷ []) kept' two_left in
      rw
        (
          got,
          told,
          run-idle n last sent (ts ++ t ∷ []) q' qs (b.resubscribe last) (laws.new_kept last)
              (laws.new_unread last),
        )
        refl
