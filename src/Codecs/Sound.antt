-- ===== src/Codecs/Sound.antt =====
-- `decode_sysex_message` of lib/src/codecs.rs on any bytes: when it panics, and what it returns.
use mcp_server_allenheath_dl.Prelude.{
  ensure, ◌>>◌, ℕ, ◌<◌, ◌≡◌, ◌≢◌, refl, ◌↔◌, ◌⊎◌, inl, inr, true, false, List, [], ◌∷◌, ◌++◌, some,
  panic, Option, none, arith, All, length, Bool-cases, bad_sysex_length, if◌then◌else◌, ◌==◌, leb,
}
use mcp_server_allenheath_dl.MidiStream.{IsU7}
use mcp_server_allenheath_dl.Messages.{
  Message, get_mute_status, get_fader_level, get_main_mix_assignment, get_send_level,
  get_send_assign, set_channel_name, get_channel_name, channel_name, set_channel_colour,
  get_channel_colour, channel_colour,
}
use mcp_server_allenheath_dl.Codecs.Encoder.{sysex_header}
use mcp_server_allenheath_dl.Codecs.Sysex.{
  strip_prefix, decode_colour, is_colour, decode_get_param, decode_get_send, decode_get,
  decode_kind, finish, decode_sysex_message, level_message, assign_message,
}
use mcp_server_allenheath_dl.Codecs.Wire.{IsEncodable}
use mcp_server_allenheath_dl.Codecs.Ensures.{
  Ensures, Ensures-bind, Ensures-ensure, Ensures-if, IsRead, get_u8-Ensures,
}
use mcp_server_allenheath_dl.Codecs.Arms.{
  IsArm, on_channel_sound, only_channel_sound, decode_name_sound, decode_colour_sound,
  decode_get_pair_sound, decode_send_sound,
}

is_colour-length : (raw : List ℕ) → is_colour raw ≡ true → length raw ≡ 2
is_colour-length [] e = cc
is_colour-length (a ∷ []) e = cc
is_colour-length (a ∷ b ∷ []) e = refl
is_colour-length (a ∷ b ∷ c ∷ raw) e = cc

module _ (n : ℕ) (raw : List ℕ) (h : All IsU7 raw) where
  decode_get_param_sound : 0 < length raw → Ensures IsArm (decode_get_param n raw)
  unfolding decode_get_param
  decode_get_param_sound lt =
      Ensures-bind (IsRead raw) IsArm _ _ (get_u8-Ensures raw lt h) (λ p read.
        Ensures-if IsArm (p.0 == 0x17) _ _
          (λ _. only_channel_sound n p.1 read.2 get_fader_level (λ c v. v))
          (λ _.
            Ensures-if IsArm (p.0 == 0x18) _ _
              (λ _. only_channel_sound n p.1 read.2 get_main_mix_assignment (λ c v. v)) (λ _. tt)))

  decode_get_send_sound : 0 < length raw → Ensures IsArm (decode_get_send n raw)
  unfolding decode_get_send
  decode_get_send_sound lt =
      Ensures-bind (IsRead raw) IsArm _ _ (get_u8-Ensures raw lt h) (λ p read.
        Ensures-if IsArm (p.0 == 0x0D) _ _
          (λ _. decode_get_pair_sound n p.1 read.2 get_send_level (λ c d v w. (v, w)))
          (λ _.
            Ensures-if IsArm (p.0 == 0x0E) _ _
              (λ _. decode_get_pair_sound n p.1 read.2 get_send_assign (λ c d v w. (v, w)))
              (λ _. tt)))

module _ (n : ℕ) (raw : List ℕ) (h : All IsU7 raw) where
  decode_get_sound : Ensures IsArm (decode_get n raw)
  unfolding decode_get
  decode_get_sound = Ensures-ensure IsArm (leb 2 (length raw)) bad_sysex_length _ (λ two.
      Ensures-bind (IsRead raw) IsArm _ _ (get_u8-Ensures raw (ground arith) h) (λ p read.
        let left : 0 < length p.1 = ground arith in
        Ensures-if IsArm (p.0 == 0x09) _ _
          (λ _. on_channel_sound n p.1 read.2 get_mute_status (λ c v. v) left)
          (λ _.
            Ensures-if IsArm (p.0 == 0x0B) _ _ (λ _. decode_get_param_sound n p.1 read.2 left)
              (λ _.
                Ensures-if IsArm (p.0 == 0x0F) _ _ (λ _. decode_get_send_sound n p.1 read.2 left)
                  (λ _. tt)))))

module _ (n : ℕ) (raw : List ℕ) (h : All IsU7 raw) where
  set_colour_sound :
      Ensures IsArm
        (ensure (length raw == 2) bad_sysex_length >> decode_colour set_channel_colour n raw)
  set_colour_sound =
      Ensures-ensure IsArm (length raw == 2) bad_sysex_length _
        (λ two. decode_colour_sound n raw h set_channel_colour (λ c k v. v) (ground arith))

  decode_kind_sound : (kind : ℕ) → Ensures IsArm (decode_kind kind n raw)
  unfolding decode_kind
  decode_kind_sound kind =
      Ensures-if IsArm (kind == 0x01) _ _
        (λ _. only_channel_sound n raw h get_channel_name (λ c v. v))
        (λ _.
          Ensures-if IsArm (kind == 0x02) _ _
            (λ _. decode_name_sound n raw h channel_name (λ c k v w. (v, w.0, w.1)))
            (λ _.
              Ensures-if IsArm (kind == 0x03) _ _
                (λ _. decode_name_sound n raw h set_channel_name (λ c k v w. (v, w.0, w.1)))
                (λ _.
                  Ensures-if IsArm (kind == 0x04) _ _
                    (λ _. only_channel_sound n raw h get_channel_colour (λ c v. v))
                    (λ _.
                      Ensures-if IsArm (if kind == 0x05 then is_colour raw else false) _ _
                        (λ colour.
                          decode_colour_sound n raw h channel_colour (λ c k v. v)
                            (is_colour-length raw (ground arith)))
                        (λ _.
                          Ensures-if IsArm (kind == 0x06) _ _ (λ _. set_colour_sound)
                            (λ _.
                              Ensures-if IsArm (kind == 0x05) _ _ (λ _. decode_get_sound n raw h)
                                (λ _.
                                  Ensures-if IsArm (kind == 0x0D) _ _
                                    (λ _.
                                      decode_send_sound n raw h level_message
                                        (λ c d b v w u. (v, w, u)))
                                    (λ _.
                                      Ensures-if IsArm (kind == 0x0E) _ _
                                        (λ _.
                                          decode_send_sound n raw h assign_message
                                            (λ c d b v w u. (v, w)))
                                        (λ _. tt)))))))))

-- No message, or an encodable one.
abbrev pub IsAnswer : Option Message → Type 0
IsAnswer none = Unit
IsAnswer (some m) = IsEncodable m

finish_sound : (arm : Option (Message × List ℕ)) → IsArm arm → Ensures IsAnswer (finish arm)
unfolding finish
finish_sound none h = tt
finish_sound (some (m, raw)) h =
    Ensures-ensure IsAnswer (length raw == 0) bad_sysex_length _ (λ _. h)

-- Behind the header and two more bytes, any seven-bit bytes are answered with no message, with an
-- encodable one, or with an error: never with a panic.
pub decode_sysex_message_sound :
    (n kind : ℕ) (raw : List ℕ)
    → All IsU7 raw
    → Ensures IsAnswer (decode_sysex_message (sysex_header ++ n ∷ kind ∷ raw))
unfolding decode_sysex_message
decode_sysex_message_sound n kind raw h =
    Ensures-bind IsArm IsAnswer _ _ (decode_kind_sound n raw h kind) finish_sound

strip_prefix_cases :
    (ps raw : List ℕ)
    → ((rest : List ℕ) × (strip_prefix ps raw ≡ some rest) × (raw ≡ ps ++ rest))
      ⊎ (strip_prefix ps raw ≡ none)
strip_prefix_cases [] raw = inl (raw, refl, refl)
strip_prefix_cases (p ∷ ps) [] = inr refl
strip_prefix_cases (p ∷ ps) (b ∷ raw) = elim (Bool-cases (p == b)) [
  | inl same ↦ elim (strip_prefix_cases ps raw) [
    | inl (rest, found, whole) ↦ inl (rest, ground arith, ground arith)
    | inr e ↦ inr (ground arith)
  ]
  | inr other ↦ inr (ground arith)
]

-- The header alone, or with one byte behind it.
abbrev pub IsCut : List ℕ → Type 0
IsCut raw = (raw ≡ sysex_header) ⊎ ((b : ℕ) × (raw ≡ sysex_header ++ b ∷ []))

unheaded : (raw : List ℕ) → strip_prefix sysex_header raw ≡ none → decode_sysex_message raw ≢ panic
unfolding decode_sysex_message
unheaded raw e p = let q = rw e at p in cc

cut_at_once : decode_sysex_message sysex_header ≡ panic
unfolding decode_sysex_message
cut_at_once = refl

cut_after : (b : ℕ) → decode_sysex_message (sysex_header ++ b ∷ []) ≡ panic
unfolding decode_sysex_message
cut_after b = refl

headed_panic :
    (rest : List ℕ)
    → All IsU7 (sysex_header ++ rest)
    → decode_sysex_message (sysex_header ++ rest) ≡ panic
    → IsCut (sysex_header ++ rest)
headed_panic [] h e = inl refl
headed_panic (b ∷ []) h e = inr (b, refl)
headed_panic (n ∷ kind ∷ rest) h e =
    absurd (rw e at (decode_sysex_message_sound n kind rest h.1.1.1.1.1.1.1.1.1))

-- The decoder panics on a SysEx message of seven-bit bytes exactly if that is the header with at most
-- one byte behind it.
pub decode_sysex_message_panics_iff :
    (raw : List ℕ) → All IsU7 raw → (decode_sysex_message raw ≡ panic) ↔ IsCut raw
decode_sysex_message_panics_iff raw h = (to, from)
  where
    to : decode_sysex_message raw ≡ panic → IsCut raw
    to e = elim (strip_prefix_cases sysex_header raw) [
      | inl (rest, found, whole) ↦ rw whole (headed_panic rest (rw whole at h) (rw whole at e))
      | inr none_found ↦ absurd (unheaded raw none_found e)
    ]

    from : IsCut raw → decode_sysex_message raw ≡ panic
    from (inl e) = rw e cut_at_once
    from (inr (b, e)) = rw e (cut_after b)
