-- ===== src/System/Duplex.antt =====
-- Both directions of a connection at once, over lib/src/codecs.rs with one codec at each end.
use mcp_server_allenheath_dl.Prelude.{
  ◌≡◌, ◌∙◌, refl, sym, ap, List, [], ◌∷◌, ◌++◌, All, map, append_assoc, append-nil, map-append,
}
use mcp_server_allenheath_dl.Messages.{Message}
use mcp_server_allenheath_dl.MidiStream.{Midi, IsWmidi, IsLossless, Consumes}
use mcp_server_allenheath_dl.Codecs.Encoder.{default}
use mcp_server_allenheath_dl.Codecs.Decoder.{decode}
use mcp_server_allenheath_dl.Codecs.Wire.{IsEncodable, heard_as}
use mcp_server_allenheath_dl.Codecs.Stream.{Yields, silent}
use mcp_server_allenheath_dl.Codecs.Duplex.{IsDuplex}
use mcp_server_allenheath_dl.Codecs.Transit.{Transit-Yields, Transit-decode}
use mcp_server_allenheath_dl.System.Carries.{
  OnTheWay, Carries, Carries-encode, Carries-decode, Carries-writer_reads, Carries-reader_writes,
}
use mcp_server_allenheath_dl.System.Link.{
  Event, client_sends, desk_sends, client_reads, desk_reads, Link, connected, step, run,
}

-- What an end sends, apart from when.
abbrev pub sent_up : List Event → List Message
sent_up [] = []
sent_up (client_sends m ∷ es) = m ∷ sent_up es
sent_up (_ ∷ es) = sent_up es

abbrev pub sent_down : List Event → List Message
sent_down [] = []
sent_down (desk_sends m ∷ es) = m ∷ sent_down es
sent_down (_ ∷ es) = sent_down es

abbrev SendsEncodable : Event → Type 0
SendsEncodable (client_sends m) = IsEncodable m
SendsEncodable (desk_sends m) = IsEncodable m
SendsEncodable client_reads = Unit
SendsEncodable desk_reads = Unit

module _ (midi : Midi) (laws : IsWmidi midi) (lossless : IsLossless midi) (consumes : Consumes midi)
    (duplex : IsDuplex midi lossless) where
  abbrev Both : Link midi.State → List Message → List Message → Type 0
  Both l ups downs =
      Carries midi laws lossless consumes duplex l.client l.desk l.up l.desk_read ups
      × Carries midi laws lossless consumes duplex l.desk l.client l.down l.client_read downs

  -- What an event adds to what was sent.
  abbrev heard_from : List Message → List Message
  heard_from ms = map heard_as ms

  Both-step :
      (e : Event) (l : Link midi.State) (ups downs : List Message)
      → SendsEncodable e
      → Both l ups downs
      → Both
          (step midi e l)
          (ups ++ heard_from (sent_up (e ∷ [])))
          (downs ++ heard_from (sent_down (e ∷ [])))
  unfolding step
  Both-step (client_sends m) l ups downs h (up, down) = (
    Carries-encode midi laws lossless consumes duplex l.client l.desk l.up l.desk_read ups up m h,
    rw (append-nil downs) (
        Carries-reader_writes midi laws lossless consumes duplex l.desk l.client l.down
          l.client_read downs down m l.up h),
  )
  Both-step (desk_sends m) l ups downs h (up, down) = (
    rw (append-nil ups) (
        Carries-reader_writes midi laws lossless consumes duplex l.client l.desk l.up l.desk_read
          ups up m l.down h),
    Carries-encode midi laws lossless consumes duplex l.desk l.client l.down l.client_read downs
        down m h,
  )
  Both-step client_reads l ups downs h (up, down) =
      let (rest, on_way, _) = down in
      let (_, _, kept) =
        Transit-decode midi laws lossless consumes duplex l.desk.inner l.client l.down rest
          on_way in
      (
        rw (append-nil ups) (
            Carries-writer_reads midi laws lossless consumes duplex l.client l.desk l.up l.desk_read
              ups up (decode midi (l.client, l.down)).1.0 kept),
        rw (append-nil downs) (
            Carries-decode midi laws lossless consumes duplex l.desk l.client l.down l.client_read
              downs down),
      )
  Both-step desk_reads l ups downs h (up, down) =
      let (rest, on_way, _) = up in
      let (_, _, kept) =
        Transit-decode midi laws lossless consumes duplex l.client.inner l.desk l.up rest on_way in
      (
        rw (append-nil ups) (
            Carries-decode midi laws lossless consumes duplex l.client l.desk l.up l.desk_read ups
              up),
        rw (append-nil downs) (
            Carries-writer_reads midi laws lossless consumes duplex l.desk l.client l.down
              l.client_read downs down (decode midi (l.desk, l.up)).1.0 kept),
      )

  heard_from-cons :
      (of : List Event → List Message) (e : Event) (es : List Event) (ms : List Message)
      → of (e ∷ es) ≡ of (e ∷ []) ++ of es
      → (ms ++ heard_from (of (e ∷ []))) ++ heard_from (of es) ≡ ms ++ heard_from (of (e ∷ es))
  heard_from-cons of e es ms h =
      append_assoc ms (heard_from (of (e ∷ []))) (heard_from (of es))
      ∙ ap (λ ns. ms ++ ns)
          (sym (map-append heard_as (of (e ∷ [])) (of es)) ∙ ap heard_from (sym h))

  sent_up-cons : (e : Event) (es : List Event) → sent_up (e ∷ es) ≡ sent_up (e ∷ []) ++ sent_up es
  sent_up-cons (client_sends m) es = refl
  sent_up-cons (desk_sends m) es = refl
  sent_up-cons client_reads es = refl
  sent_up-cons desk_reads es = refl

  sent_down-cons :
      (e : Event) (es : List Event) → sent_down (e ∷ es) ≡ sent_down (e ∷ []) ++ sent_down es
  sent_down-cons (client_sends m) es = refl
  sent_down-cons (desk_sends m) es = refl
  sent_down-cons client_reads es = refl
  sent_down-cons desk_reads es = refl

  Both-run :
      (es : List Event) (l : Link midi.State) (ups downs : List Message)
      → All SendsEncodable es
      → Both l ups downs
      → Both (run midi es l) (ups ++ heard_from (sent_up es)) (downs ++ heard_from (sent_down es))
  unfolding run
  Both-run [] l ups downs h both = rw (append-nil ups, append-nil downs) both
  Both-run (e ∷ es) l ups downs (he, h) both =
      rw⁻¹
        (
          heard_from-cons sent_up e es ups (sent_up-cons e es),
          heard_from-cons sent_down e es downs (sent_down-cons e es),
        )
        (Both-run es (step midi e l) (ups ++ heard_from (sent_up (e ∷ [])))
          (downs ++ heard_from (sent_down (e ∷ []))) h (Both-step e l ups downs he both))

  pub nothing_sent : OnTheWay midi laws lossless consumes duplex midi.new (default midi) [] []
  nothing_sent = record {
    start = midi.new;
    ws = [];
    bytes = refl;
    are_midi = tt;
    in_step = lossless.synced_new;
    writer_is = refl;
    heard = silent;
  }

  -- If neither direction of the inner codec touches the other's part, then on a new connection, with one
  -- codec at each end, however the ends' sending and reading are interleaved, encodable messages that
  -- they send arrive in both directions: what the desk has read, with what it reads if it goes on
  -- reading, are the messages that the client has sent, as `heard_as` says and in their order, and
  -- then no more; and the same of the client and the messages of the desk.
  pub run-Yields :
      (es : List Event)
      → All SendsEncodable es
      → ((rest : List Message) × Yields midi
            (decode midi ((run midi es (connected midi)).desk, (run midi es (connected midi)).up))
            rest
          × ((run midi es (connected midi)).desk_read ++ rest ≡ map heard_as (sent_up es)))
        × ((rest : List Message) × Yields midi
              (decode midi
                ((run midi es (connected midi)).client, (run midi es (connected midi)).down))
              rest
            × ((run midi es (connected midi)).client_read ++ rest ≡ map heard_as (sent_down es)))
  run-Yields es h =
      let l = run midi es (connected midi) in
      let ((ups, up, all_up), (downs, down, all_down)) =
        Both-run es (connected midi) [] [] h (([], nothing_sent, refl), ([], nothing_sent, refl)) in
      (
        (
          ups,
          Transit-Yields midi laws lossless consumes duplex l.client.inner l.desk l.up ups up,
          all_up,
        ),
        (
          downs,
          Transit-Yields midi laws lossless consumes duplex l.desk.inner l.client l.down downs down,
          all_down,
        ),
      )
