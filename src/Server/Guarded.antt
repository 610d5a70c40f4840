-- ===== src/Server/Guarded.antt =====
-- The token check in front of the service that mcp-server/src/main.rs puts together.
use mcp_server_allenheath_dl.Prelude.{
  ℕ, ◌≡◌, ◌∙◌, refl, ◌⊎◌, inl, inr, List, [], ◌∷◌, Option, none, some, Bool-cases, ap,
}
use mcp_server_allenheath_dl.Text.{text_eq}
use mcp_server_allenheath_dl.Auth.{
  AuthToken, Http, Parts, unauthorized, served, from_request_parts, validate_token_middleware,
  guard,
}
use mcp_server_allenheath_dl.Auth.Guard.{Permits, guard_iff}
use mcp_server_allenheath_dl.Levels.{F32}
use mcp_server_allenheath_dl.Handler.{Calls}
use mcp_server_allenheath_dl.Server.{Args, WatchSender}
use mcp_server_allenheath_dl.Server.Sessions.{
  WatchReceivers, Server, Event, opened, called, elsewhere, hangup, admit, step, serve,
}

validate-cases :
    {R : Type 0} (token : Option (List ℕ)) (auth_token : Option AuthToken) (answer : R)
    → (validate_token_middleware token auth_token answer ≡ served answer)
      ⊎ (validate_token_middleware token auth_token answer ≡ unauthorized)
unfolding validate_token_middleware
validate-cases none auth_token answer = inl refl
validate-cases (some token) none answer = inr refl
validate-cases (some token) (some auth_token) answer =
    elim (Bool-cases (text_eq auth_token.token token)) [
      | inl same ↦ inl (rw (validate_token_middleware, same) refl)
      | inr other ↦ inr (rw (validate_token_middleware, other) refl)
    ]

-- A request is served, or refused.
pub guard-cases :
    (http : Http) {R : Type 0} (token : Option (List ℕ)) (parts : Parts http) (answer : R)
    → (guard http token parts answer ≡ served answer)
      ⊎ (guard http token parts answer ≡ unauthorized)
unfolding guard
guard-cases http token parts answer = validate-cases token (from_request_parts http parts) answer

module _ {w : WatchSender} (rs : WatchReceivers w) (http : Http) {W : Type 0} (calls : Calls W)
    (f : F32) (args : Args) where
  -- A request without the token.
  abbrev IsForeign : Event rs http calls f → Type 0
  IsForeign (opened parts world) = ¬ Permits http parts args.token
  IsForeign (called parts k r) = ¬ Permits http parts args.token
  IsForeign (elsewhere k world) = ⊥
  IsForeign (hangup file) = ⊥

  -- The second run is the first with some requests left out that are without the token.
  pub data LeavesOut : List (Event rs http calls f) → List (Event rs http calls f) → Type 0 where
    done : LeavesOut [] []
    both :
        (e : Event rs http calls f) {es es' : List (Event rs http calls f)}
        → LeavesOut es es'
        → LeavesOut (e ∷ es) (e ∷ es')
    left_out :
        (e : Event rs http calls f) {es es' : List (Event rs http calls f)}
        → IsForeign e
        → LeavesOut es es'
        → LeavesOut (e ∷ es) es'

  abbrev S : Type 0
  S = Server rs http calls f

  admit-foreign :
      (parts : Parts http) (s s' : S)
      → ¬ Permits http parts args.token
      → admit rs http calls f (guard http args.token parts s') s ≡ s
  admit-foreign parts s s' h = elim (guard-cases http args.token parts s') [
    | inl let_in ↦ absurd (h ((guard_iff http parts args.token s').0 let_in))
    | inr refused ↦ rw refused refl
  ]

  step-foreign :
      (e : Event rs http calls f) (s : S) → IsForeign e → step rs http calls f args e s ≡ s
  unfolding step
  step-foreign (opened parts world) s h = admit-foreign parts s _ h
  step-foreign (called parts k r) s h = admit-foreign parts s _ h
  step-foreign (elsewhere k world) s h = absurd h
  step-foreign (hangup file) s h = absurd h

  -- Requests that do not present the configured token change nothing: a run of the server ends as the
  -- run does in which some of them are left out, with the same sessions, kept lists and clients'
  -- worlds, and the same configuration.
  pub serve-left_out :
      (es es' : List (Event rs http calls f)) (s : S)
      → LeavesOut es es'
      → serve rs http calls f args es s ≡ serve rs http calls f args es' s
  unfolding serve
  serve-left_out _ _ s done = refl
  serve-left_out _ _ s (both e {es} {es'} h) =
      serve-left_out es es' (step rs http calls f args e s) h
  serve-left_out _ _ s (left_out e {es} {es'} foreign h) =
      ap (serve rs http calls f args es) (step-foreign e s foreign) ∙ serve-left_out es es' s h
