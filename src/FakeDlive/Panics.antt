-- ===== src/FakeDlive/Panics.antt =====
-- When fake-dlive/src/main.rs panics: on the messages it does not know, and on the names it cannot make.
use mcp_server_allenheath_dl.Prelude.{
  ℕ, suc, ◌+◌, ◌≤◌, ◌<◌, ◌≡◌, ◌≢◌, refl, ◌↔◌, ◌⊎◌, inl, inr, true, false, ◌&&◌, ◌||◌, ◌-◌, ◌∷◌,
  ◌++◌, none, ok, err, panic, stuck, Result, if◌then◌else◌, arith, Bool-cases, Option-cases, length,
  length-append, replicate, leb,
}
use mcp_server_allenheath_dl.Text.{show_u8}
use mcp_server_allenheath_dl.Channels.{
  ChannelType, input, Channel, IsValid, channel_eq, last_number,
}
use mcp_server_allenheath_dl.Channels.Names.{
  ChannelName, try_from, try_from_fits, try_from_too_long,
}
use mcp_server_allenheath_dl.Channels.Text.{show_type, show_channel}
use mcp_server_allenheath_dl.Channels.Reading.{has_prefix}
use mcp_server_allenheath_dl.Messages.{
  Message, get_channel_name, channel_name, get_send_level, send_level, get_fader_level, fader_level,
}
use mcp_server_allenheath_dl.FakeDlive.{State, get, unwrap, default_name, name_of, handle}
use mcp_server_allenheath_dl.Prelude.Exec.{Exec, resume}

-- The prefixes of the table leave room for the numbers of their types, and the other names do not.
show_type-room :
    (t : ChannelType)
    → (if has_prefix t
        then leb (length (show_type t)) 5
          && (leb (last_number t) 99 || leb (length (show_type t)) 2)
        else leb 9 (length (show_type t)))
      ≡ true
unfolding show_type
show_type-room input = refl
show_type-room _ = refl

length-show_u8 : (n : ℕ) → length (show_u8 n) ≤ (if leb n 99 then 2 else 3)
unfolding show_u8
length-show_u8 n = ground arith

length-show_channel :
    (c : Channel) → length (show_channel c) ≡ length (show_type c.ty) + length (show_u8 c.number)
unfolding show_channel
length-show_channel c = length-append (show_type c.ty) (show_u8 c.number)

fits : (c : Channel) → IsValid c → has_prefix c.ty ≡ true → length (show_channel c) ≤ 7
fits c v named = ground (arith, show_type-room c.ty, length-show_u8 c.number, length-show_channel c)

too_long : (c : Channel) → has_prefix c.ty ≡ false → 9 ≤ length (show_channel c)
too_long c unnamed = ground (arith, show_type-room c.ty, length-show_channel c)

default_name_lem : (c : Channel) → default_name c ≡ unwrap (try_from (b'@' ∷ show_channel c))
unfolding default_name
default_name_lem c = refl

-- The default name of a valid channel is its text behind an at sign, padded with zeros, if its type
-- has a prefix; for an effects send or a mute group the program panics.
pub default_name_cases :
    (c : Channel)
    → IsValid c
    → default_name c ≡ (
        if has_prefix c.ty
        then ok (record {
          bytes = (b'@' ∷ show_channel c) ++ replicate (8 - suc (length (show_channel c))) 0;
        })
        else panic)
default_name_cases c v = elim (Bool-cases (has_prefix c.ty)) [
  | inl named ↦
      let short = fits c v named in
      rw (named, default_name_lem c, try_from_fits (b'@' ∷ show_channel c) (omega arith)) refl
  | inr unnamed ↦
      let long = too_long c unnamed in
      rw (unnamed, default_name_lem c, try_from_too_long (b'@' ∷ show_channel c) (omega arith)) refl
]

-- The messages that the loop has an arm for.
abbrev pub Known : Message → Type 0
Known (get_channel_name c) = Unit
Known (channel_name c n) = Unit
Known (get_send_level c d) = Unit
Known (send_level c d l) = Unit
Known (get_fader_level c) = Unit
Known (fader_level c l) = Unit
Known _ = ⊥

-- A question for the name of a channel that has none, and whose default name is too long.
abbrev pub Nameless : Message → State → Type 0
Nameless (get_channel_name c) s =
    (get channel_eq c s.channel_names ≡ none) × (8 ≤ length (show_channel c))
Nameless _ s = ⊥

default_name_panics_iff : (c : Channel) → (default_name c ≡ panic) ↔ (8 ≤ length (show_channel c))
default_name_panics_iff c = elim (Bool-cases (leb 8 (length (show_channel c)))) [
  | inl long ↦
      let over : 8 ≤ length (show_channel c) = ground arith in
      (
        (λ e. over),
        (λ h.
            rw (default_name_lem c, try_from_too_long (b'@' ∷ show_channel c) (omega arith)) refl),
      )
  | inr short ↦
      let under : length (show_channel c) < 8 = ground arith in
      let made = try_from_fits (b'@' ∷ show_channel c) (omega arith) in
      ((λ e. let no = rw (default_name_lem c, made) at e in cc), (λ h. absurd (omega arith)))
]

name_of_panics_iff :
    (c : Channel) (s : State)
    → (name_of c s ≡ panic)
      ↔ ((get channel_eq c s.channel_names ≡ none) × (8 ≤ length (show_channel c)))
name_of_panics_iff c s = elim (Option-cases (get channel_eq c s.channel_names)) [
  | inl unnamed ↦
      rw (name_of, unnamed)
        ((λ e. (refl, (default_name_panics_iff c).0 e)), (λ h. (default_name_panics_iff c).1 h.1))
  | inr (n, found) ↦ rw (name_of, found) ((λ e. cc), (λ h. cc (h.0)))
]

resume_panics :
    {W : Type 0} (r : Result ChannelName) (f : ChannelName → Exec W (Unit {0})) (w : W)
    → ((n : ChannelName) → (f n w).0 ≢ panic)
    → (resume r f w).0 ≡ panic
    → r ≡ panic
resume_panics (ok n) f w h e = absurd (h n e)
resume_panics (err x) f w h e = cc
resume_panics panic f w h e = refl
resume_panics stuck f w h e = cc

module _ {W : Type 0} (send : Message → Exec W (Unit {0}))
    (sends : (m : Message) (w : W) → (send m w).0 ≢ panic) where
  -- If sending never panics, the desk panics exactly on the messages it has no arm for, and on a
  -- question for the name of a channel without one whose text has eight characters or more.
  pub handle_panics_iff :
      (m : Message) (s : State × W) → ((handle send m s).0 ≡ panic) ↔ ((¬ Known m) ⊎ Nameless m s.0)
  unfolding handle
  handle_panics_iff (get_channel_name c) s = (
    (λ e. inr (
        (name_of_panics_iff c s.0).0
          (resume_panics (name_of c s.0) _ s (λ n. sends (channel_name c n) s.1) e))),
    (λ h. elim h [
      | inl unknown ↦ absurd (unknown tt)
      | inr nameless ↦ rw ((name_of_panics_iff c s.0).1 nameless) refl
    ]),
  )
  handle_panics_iff (channel_name c n) s =
      ((λ e. cc), (λ h. elim h [ inl n ↦ absurd (n tt) | inr b ↦ absurd b ]))
  handle_panics_iff (get_send_level c d) s =
      ((λ e. absurd (sends _ _ e)), (λ h. elim h [ inl n ↦ absurd (n tt) | inr b ↦ absurd b ]))
  handle_panics_iff (send_level c d l) s =
      ((λ e. cc), (λ h. elim h [ inl n ↦ absurd (n tt) | inr b ↦ absurd b ]))
  handle_panics_iff (get_fader_level c) s =
      ((λ e. absurd (sends _ _ e)), (λ h. elim h [ inl n ↦ absurd (n tt) | inr b ↦ absurd b ]))
  handle_panics_iff (fader_level c l) s =
      ((λ e. cc), (λ h. elim h [ inl n ↦ absurd (n tt) | inr b ↦ absurd b ]))
  handle_panics_iff _ s = ((λ e. inl (λ k. k)), (λ h. refl))
