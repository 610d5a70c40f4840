-- ===== src/FakeDlive/Levels.antt =====
-- The levels of fake-dlive/src/main.rs: a question is answered with the last level that was set.
use mcp_server_allenheath_dl.Prelude.{
  ◌∙◌, ◌≡◌, refl, ap, inl, inr, List, [], ◌∷◌, map, ok, err, panic, stuck, Result, if◌then◌else◌,
  Bool-cases,
}
use mcp_server_allenheath_dl.Prelude.Exec.{Exec, resume}
use mcp_server_allenheath_dl.Channels.{Channel, channel_eq}
use mcp_server_allenheath_dl.Channels.Names.{ChannelName}
use mcp_server_allenheath_dl.Messages.{
  Level, Message, send_level, fader_level, get_send_level, get_fader_level, get_channel_name,
  channel_name,
}
use mcp_server_allenheath_dl.FakeDlive.{
  State, pair_eq, send_level_of, fader_level_of, send_message, handle, handle_connection, name_of,
}

-- One message after the other changes a value.
abbrev pub fold : {A : Type 0} → (Message → A → A) → List Message → A → A
fold change [] a = a
fold change (m ∷ ms) a = fold change ms (change m a)

-- What a message makes of the level of a channel in a send.
abbrev pub set_send : Channel → Channel → Message → Level → Level
set_send c d (send_level c' d' l') l = if pair_eq (c', d') (c, d) then l' else l
set_send c d _ l = l

-- What a message makes of the level of a channel's fader.
abbrev pub set_fader : Channel → Message → Level → Level
set_fader c (fader_level c' l') l = if channel_eq c' c then l' else l
set_fader c _ l = l

module _ {W : Type 0} (send : Message → Exec W (Unit {0})) where
  resume_state :
      (r : Result ChannelName) (f : ChannelName → Message) (s : State × W)
      → (resume r (λ n. send_message send (f n)) s).1.0 ≡ s.0
  resume_state (ok n) f s = refl
  resume_state (err e) f s = refl
  resume_state panic f s = refl
  resume_state stuck f s = refl

  -- Whether the message goes through or not.
  pub one_send_level :
      (c d : Channel) (m : Message) (s : State × W)
      → send_level_of c d (handle send m s).1.0 ≡ set_send c d m (send_level_of c d s.0)
  unfolding handle
  one_send_level c d (send_level c' d' l') s = elim (Bool-cases (pair_eq (c', d') (c, d))) [
    | inl same ↦ rw same refl
    | inr other ↦ rw other refl
  ]
  one_send_level c d (fader_level c' l') s = refl
  one_send_level c d (get_send_level c' d') s = refl
  one_send_level c d (get_fader_level c') s = refl
  one_send_level c d (channel_name c' n) s = refl
  one_send_level c d (get_channel_name c') s =
      ap (send_level_of c d) (resume_state (name_of c' s.0) (channel_name c') s)
  one_send_level c d _ s = refl

  pub one_fader_level :
      (c : Channel) (m : Message) (s : State × W)
      → fader_level_of c (handle send m s).1.0 ≡ set_fader c m (fader_level_of c s.0)
  unfolding handle
  one_fader_level c (fader_level c' l') s = elim (Bool-cases (channel_eq c' c)) [
    | inl same ↦ rw same refl
    | inr other ↦ rw other refl
  ]
  one_fader_level c (send_level c' d' l') s = refl
  one_fader_level c (get_send_level c' d') s = refl
  one_fader_level c (get_fader_level c') s = refl
  one_fader_level c (channel_name c' n) s = refl
  one_fader_level c (get_channel_name c') s =
      ap (fader_level_of c) (resume_state (name_of c' s.0) (channel_name c') s)
  one_fader_level c _ s = refl

  module _ {A : Type 0} (view : State → A) (change : Message → A → A)
      (one : (m : Message) (s : State × W) → view (handle send m s).1.0 ≡ change m (view s.0)) where
    first_then :
        (m : Message) (ms : List Message) (s : State × W) (r : Result (Unit {0}))
        → (handle send m s).0 ≡ r
        → ((handle_connection send (map ok ms) (handle send m s).1).0 ≡ ok tt
            → view (handle_connection send (map ok ms) (handle send m s).1).1.0
              ≡ fold change ms (view (handle send m s).1.0))
        → (resume r (λ _. handle_connection send (map ok ms)) (handle send m s).1).0 ≡ ok tt
        → view (resume r (λ _. handle_connection send (map ok ms)) (handle send m s).1).1.0
          ≡ fold change ms (change m (view s.0))
    first_then m ms s (ok done) first next rest = next rest ∙ ap (fold change ms) (one m s)
    first_then m ms s (err x) first next rest = cc
    first_then m ms s panic first next rest = cc
    first_then m ms s stuck first next rest = cc

    handle_connection-fold :
        (ms : List Message) (s : State × W)
        → (handle_connection send (map ok ms) s).0 ≡ ok tt
        → view (handle_connection send (map ok ms) s).1.0 ≡ fold change ms (view s.0)
    unfolding handle_connection
    handle_connection-fold [] s e = refl
    handle_connection-fold (m ∷ ms) s e =
        first_then m ms s (handle send m s).0 refl (handle_connection-fold ms (handle send m s).1) e

  -- After messages that all went through, a question for the level of a channel in a send is answered
  -- with the last level that was set for the two, or else the level from before the messages.
  handle-get_send_level :
      (ms : List Message) (s : State × W) (c d : Channel)
      → (handle_connection send (map ok ms) s).0 ≡ ok tt
      → handle send (get_send_level c d) (handle_connection send (map ok ms) s).1
        ≡ send_message send
            (send_level c d (fold (set_send c d) ms (send_level_of c d s.0)))
            (handle_connection send (map ok ms) s).1
  unfolding handle
  handle-get_send_level ms s c d e =
      ap (λ l. send_message send (send_level c d l) (handle_connection send (map ok ms) s).1)
        (handle_connection-fold (send_level_of c d) (set_send c d) (one_send_level c d) ms s e)

  -- The same of a question for a fader: the answer is the last level that was set for the channel, or
  -- else the level from before the messages.
  handle-get_fader_level :
      (ms : List Message) (s : State × W) (c : Channel)
      → (handle_connection send (map ok ms) s).0 ≡ ok tt
      → handle send (get_fader_level c) (handle_connection send (map ok ms) s).1
        ≡ send_message send
            (fader_level c (fold (set_fader c) ms (fader_level_of c s.0)))
            (handle_connection send (map ok ms) s).1
  unfolding handle
  handle-get_fader_level ms s c e =
      ap (λ l. send_message send (fader_level c l) (handle_connection send (map ok ms) s).1)
        (handle_connection-fold (fader_level_of c) (set_fader c) (one_fader_level c) ms s e)
