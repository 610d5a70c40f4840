-- ===== src/Handler/Kept.antt =====
-- When the kept lists of mcp-server/src/handler.rs are right for a configuration.
use mcp_server_allenheath_dl.Prelude.{
  ◌≡◌, refl, ap, ◌⊎◌, inl, inr, true, false, List, [], ◌∷◌, map, length, Bool-cases, arith,
}
use mcp_server_allenheath_dl.Channels.{Channel}
use mcp_server_allenheath_dl.Channels.Names.{ChannelName}
use mcp_server_allenheath_dl.Args.Ranges.{iter_all}
use mcp_server_allenheath_dl.Handler.{
  ChannelDetails, Watch, State, details, unwrap_or_false, invalidate_if_changed,
}

-- What the documentation of the watch channel says of a value that was marked as seen: it has not
-- changed, or its sender is gone.
pub record IsWatch (watch : Watch) : Type 0 where
  pub marked :
      (r : watch.Receiver) → unwrap_or_false (watch.has_changed (watch.mark_unchanged r)) ≡ false
  pub borrow-marked : (r : watch.Receiver) → watch.borrow (watch.mark_unchanged r) ≡ watch.borrow r

abbrev pub internals : List ChannelDetails → List Channel
internals ds = map (λ (d : ChannelDetails). d.internal) ds

pub internals-details :
    (cs : List Channel) (ns : List ChannelName)
    → length ns ≡ length cs
    → internals (details cs ns) ≡ cs
internals-details [] ns h = refl
internals-details (c ∷ cs) [] h = absurd (omega arith)
internals-details (c ∷ cs) (n ∷ ns) h = ap (λ l. c ∷ l) (internals-details cs ns (omega arith))

module _ (watch : Watch) where
  -- Nothing is kept, or the channels.
  abbrev pub Kept : List ChannelDetails → List Channel → Type 0
  Kept ds cs = (ds ≡ []) ⊎ (internals ds ≡ cs)

  -- The lists are for the configuration that the receiver holds.
  abbrev pub Settled : State watch → Type 0
  Settled st =
      Kept st.inputs (iter_all (watch.borrow st.config_rx).inputs)
      × Kept st.mixes (iter_all (watch.borrow st.config_rx).mixes)

  -- They are, or else the next call will see that the configuration has changed.
  abbrev pub Fresh : State watch → Type 0
  Fresh st = (unwrap_or_false (watch.has_changed st.config_rx) ≡ true) ⊎ Settled st

  pub Settled-invalidate : (st : State watch) → Fresh st → Settled (invalidate_if_changed watch st)
  unfolding invalidate_if_changed
  Settled-invalidate st h = elim (Bool-cases (unwrap_or_false (watch.has_changed st.config_rx))) [
    | inl changed ↦ rw (invalidate_if_changed, changed) (inl refl, inl refl)
    | inr same ↦
        rw (invalidate_if_changed, same) (elim h [ inl changed ↦ cc | inr settled ↦ settled ])
  ]

  pub borrow-invalidate :
      IsWatch watch
      → (st : State watch)
      → watch.borrow (invalidate_if_changed watch st).config_rx ≡ watch.borrow st.config_rx
  unfolding invalidate_if_changed
  borrow-invalidate laws st = elim (Bool-cases (unwrap_or_false (watch.has_changed st.config_rx))) [
    | inl changed ↦ rw (invalidate_if_changed, changed) (laws.borrow-marked st.config_rx)
    | inr same ↦ rw (invalidate_if_changed, same) refl
  ]
