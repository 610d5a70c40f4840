-- ===== src/Client/Connect.antt =====
-- `DLiveClient::new` of lib/src/client.rs: one port after the other. What a port answers is the
-- network's, and a parameter.
use mcp_server_allenheath_dl.Prelude.{
  ℕ, ◌≡◌, refl, ap, ◌∙◌, ◌⊎◌, inl, inr, ◌↔◌, List, [], ◌∷◌, ◌++◌, All, Result, ok, err,
  not_connected,
}

-- `ErrorKind::ConnectionRefused` is told from the other errors.
pub data Outcome (S : Type 0) : Type 0 where
  connected : S → Outcome S
  refused : Outcome S
  failed : Outcome S

abbrev dlive_mixrack_tcp_port : ℕ
dlive_mixrack_tcp_port = 51325

abbrev pub dlive_surface_tcp_port : ℕ
dlive_surface_tcp_port = 51328

abbrev dlive_fake_tcp_port : ℕ
dlive_fake_tcp_port = 51331

-- The loop: a refusal continues it, another error breaks it.
unfoldable dial : {S : Type 0} → (ℕ → Outcome S) → List ℕ → Result S
dial connect [] = err not_connected
dial connect (port ∷ ports) = elim (connect port) [
  | connected stream ↦ ok stream
  | refused ↦ dial connect ports
  | failed ↦ err not_connected
]

abbrev tcp_ports : List ℕ
tcp_ports = dlive_mixrack_tcp_port ∷ dlive_surface_tcp_port ∷ dlive_fake_tcp_port ∷ []

unfoldable pub new : {S : Type 0} → (ℕ → Outcome S) → Result S
unfolding dial
new connect = dial connect tcp_ports

Outcome-cases :
    {S : Type 0} (o : Outcome S) → (o ≡ refused) ⊎ ((o ≡ failed) ⊎ ((s : S) × (o ≡ connected s)))
Outcome-cases (connected s) = inr (inr (s, refl))
Outcome-cases refused = inl refl
Outcome-cases failed = inr (inl refl)

module _ {S : Type 0} (connect : ℕ → Outcome S) where
  -- One of the ports gives the stream, and those before it refuse.
  abbrev FirstOpen : List ℕ → S → Type 0
  FirstOpen ports stream =
      (before : List ℕ) × (port : ℕ) × (after : List ℕ) × (ports ≡ before ++ port ∷ after)
      × All (λ p. connect p ≡ refused) before
      × (connect port ≡ connected stream)

  dial-FirstOpen :
      (ports : List ℕ) (stream : S) → dial connect ports ≡ ok stream → FirstOpen ports stream
  unfolding dial
  dial-FirstOpen [] stream e = cc
  dial-FirstOpen (p ∷ ports) stream e = elim (Outcome-cases (connect p)) [
    | inl refuses ↦
        let (before, port, after, split, h, opened) =
          dial-FirstOpen ports stream (rw (dial, refuses) at e) in
        (p ∷ before, port, after, ap (λ l. p ∷ l) split, (refuses, h), opened)
    | inr (inl fails) ↦ let no = rw (dial, fails) at e in cc
    | inr (inr (s, opens)) ↦ let yes = rw (dial, opens) at e in ([], p, ports, refl, tt, opens ∙ cc)
  ]

  FirstOpen-dial :
      (ports before after : List ℕ) (port : ℕ) (stream : S)
      → ports ≡ before ++ port ∷ after
      → All (λ p. connect p ≡ refused) before
      → connect port ≡ connected stream
      → dial connect ports ≡ ok stream
  unfolding dial
  FirstOpen-dial ports [] after port stream e h opened = rw (e, opened) refl
  FirstOpen-dial ports (p ∷ before) after port stream e (hp, h) opened =
      rw (e, hp) (FirstOpen-dial (before ++ port ∷ after) before after port stream refl h opened)

  -- The client has a stream exactly if one of the desk's three ports gives it, and the ports before
  -- that refuse the connection: any other error ends the search.
  new_iff : (stream : S) → (new connect ≡ ok stream) ↔ FirstOpen tcp_ports stream
  unfolding new
  new_iff stream = (
    dial-FirstOpen tcp_ports stream,
    (λ (before, port, after, e, h, opened).
        FirstOpen-dial tcp_ports before after port stream e h opened),
  )
