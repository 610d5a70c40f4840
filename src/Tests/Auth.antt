-- ===== src/Tests/Auth.antt =====
-- The theorem on mcp-server/src/auth.rs at a concrete request.
use mcp_server_allenheath_dl.Prelude.{ℕ, ◌≡◌, ◌↔◌, refl, List, Option, none, some, if◌then◌else◌}
use mcp_server_allenheath_dl.Text.{codes, text_eq}
use mcp_server_allenheath_dl.Auth.{Http, Parts, served, guard}
use mcp_server_allenheath_dl.Auth.Guard.{Permits, guard_iff}

-- A query is its token, and the one header is `Authorization`.
abbrev pub small_http : Http
small_http = record {
  Uri = Option (List ℕ);
  HeaderMap = Option (List ℕ);
  HeaderValue = List ℕ;
  query = λ uri. elim uri [ none ↦ none | some t ↦ some (record { token = t }) ];
  get = λ headers name. if text_eq name (codes "Authorization") then headers else none;
  to_str = λ value. some value;
}

abbrev pub asked : Parts small_http
asked = record { uri = none; headers = some (codes "Bearer s3cret") }

abbrev status : ℕ
status = 200

guard_iff_example :
    (guard small_http (some (codes "s3cret")) asked status ≡ served status)
    ↔ Permits small_http asked (some (codes "s3cret"))
guard_iff_example = guard_iff small_http asked (some (codes "s3cret")) status

guard_bearer : guard small_http (some (codes "s3cret")) asked status ≡ served status
unfolding guard
guard_bearer = refl
