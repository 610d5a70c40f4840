-- ===== src/Tests/Scraped.antt =====
-- The theorem on fake-dlive/src/bin/scrape-channel-names.rs at a concrete desk, whose client gets every
-- answer.
use mcp_server_allenheath_dl.Prelude.{
  ◌≡◌, refl, sym, ap, ◌∙◌, List, [], ◌∷◌, map, All, Result, ok, err, panic, stuck, receive_failed,
}
use mathlib.Core.Path.{subst}
use mcp_server_allenheath_dl.Prelude.Hoare.{resume-ok}
use mcp_server_allenheath_dl.Channels.{Channel}
use mcp_server_allenheath_dl.Channels.Equality.{channel_eq_refl}
use mcp_server_allenheath_dl.Channels.Names.{ChannelName}
use mcp_server_allenheath_dl.Client.{name_answer, name_request}
use mcp_server_allenheath_dl.FakeDlive.{State, initial, name_of, default_name, handle}
use mcp_server_allenheath_dl.System.FakeCalls.{fake_calls, ask, ask_names, first_answer}
use mcp_server_allenheath_dl.Tools.{scraped_channels, zip_names, scrape_channel_names}
use mcp_server_allenheath_dl.Tools.Scraped.{TellsNames, scrape_channel_names-initial}
use mcp_server_allenheath_dl.Tests.System.{kick_name, untouched}

-- A question for a name leaves the desk, and is answered with the name that it keeps or makes.
ask-name_of :
    (c : Channel) (s : State) (r : Result ChannelName)
    → name_of c s ≡ r
    → ask (name_answer c) (name_request c) s ≡ (elim r [ ok n ↦ ok n | _ ↦ err receive_failed ], s)
unfolding handle
ask-name_of c s (ok n) e = rw (e, first_answer, channel_eq_refl c) refl
ask-name_of c s (err x) e = rw e refl
ask-name_of c s panic e = rw e refl
ask-name_of c s stuck e = rw e refl

abbrev name_or_kick : Result ChannelName → ChannelName
name_or_kick (ok n) = n
name_or_kick _ = kick_name

abbrev names_there : Channel → ChannelName
names_there c = name_or_kick (name_of c untouched)

ask_told :
    (c : Channel) (r : Result ChannelName) (n : ChannelName) (s : State)
    → name_of c untouched ≡ r
    → ask (name_answer c) (name_request c) untouched ≡ (ok n, s)
    → (n ≡ name_or_kick r) × (s ≡ untouched)
ask_told c (ok k) n s e asked =
    let both = sym asked ∙ ask-name_of c untouched (ok k) e in
    let same : n ≡ k = let told = ap (λ o. o.0) both in cc in (same, ap (λ o. o.1) both)
ask_told c (err x) n s e asked =
    let told = ap (λ o. o.0) (sym asked ∙ ask-name_of c untouched (err x) e) in cc
ask_told c panic n s e asked =
    let told = ap (λ o. o.0) (sym asked ∙ ask-name_of c untouched panic e) in cc
ask_told c stuck n s e asked =
    let told = ap (λ o. o.0) (sym asked ∙ ask-name_of c untouched stuck e) in cc

ask_names_told :
    (cs : List Channel) (ns : List ChannelName) (s : State)
    → s ≡ untouched
    → (ask_names cs s).0 ≡ ok ns
    → ns ≡ map names_there cs
ask_names_told [] ns s here e = let same : [] ≡ ns = cc in sym same
ask_names_told (c ∷ cs) ns s here e =
    let (n, s1, asked, e1) = resume-ok _ (ask (name_answer c) (name_request c) s) ns e in
    let (told, left) =
      ask_told c (name_of c untouched) n s1 refl
        (subst (λ t. ask (name_answer c) (name_request c) t ≡ (ok n, s1)) here asked) in
    let (ns', s2, others, e2) = resume-ok _ (ask_names cs s1) ns e1 in
    let rest = ask_names_told cs ns' s1 left (ap (λ o. o.0) others) in
    let same : n ∷ ns' ≡ ns = cc in
    sym same ∙ ap (λ x. x ∷ ns') told ∙ ap (λ xs. names_there c ∷ xs) rest

fake_calls-TellsNames : TellsNames fake_calls names_there (λ s. s ≡ untouched)
fake_calls-TellsNames = record { new_kept = λ w there. there; told = ask_names_told }

scraped :
    (scrape_channel_names fake_calls untouched).0
    ≡ ok (zip_names scraped_channels (map names_there scraped_channels))
unfolding scrape_channel_names handle default_name
scraped = refl

scrape_channel_names-initial_example :
    All
      (λ c.
        name_of c (initial (zip_names scraped_channels (map names_there scraped_channels)))
        ≡ ok (names_there c))
      scraped_channels
scrape_channel_names-initial_example =
    scrape_channel_names-initial fake_calls names_there (λ s. s ≡ untouched) fake_calls-TellsNames
      untouched (zip_names scraped_channels (map names_there scraped_channels)) refl scraped
