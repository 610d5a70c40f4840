-- ===== src/Auth.antt =====
-- mcp-server/src/auth.rs: which requests reach the service. The URI, the headers and axum's reading of
-- the query are parts of the HTTP crates, and fields of `Http`.
pub mod Guard
use mcp_server_allenheath_dl.Prelude.{ℕ, Bool, true, false, List, ◌∷◌, Option, none, some}
use mcp_server_allenheath_dl.Text.{codes, text_eq, strip_prefix}

pub record AuthToken : Type 0 where
  pub token : List ℕ

-- `Query::try_from_uri(uri).ok().map(|q| q.0)`, `HeaderMap::get` and `HeaderValue::to_str(..).ok()`.
pub record Http : Type 1 where
  pub Uri : Type 0
  pub HeaderMap : Type 0
  pub HeaderValue : Type 0
  pub query : Uri → Option AuthToken
  pub get : HeaderMap → List ℕ → Option HeaderValue
  pub to_str : HeaderValue → Option (List ℕ)

-- The status of a refusal, or what the service answered.
pub data Response (R : Type 0) : Type 0 where
  unauthorized : Response R
  served : R → Response R

infixl 5 ◌>>=◌
abbrev ◌>>=◌ : {A B : Type 0} → Option A → (A → Option B) → Option B
none >>= f = none
some a >>= f = f a

module _ (http : Http) where
  pub record Parts : Type 0 where
    pub uri : http.Uri
    pub headers : http.HeaderMap

  unfoldable pub extract_token_from_header : http.HeaderMap → Option AuthToken
  extract_token_from_header headers = do
    value ← http.get headers (codes "Authorization")
    text ← http.to_str value
    t ← strip_prefix (codes "Bearer ") text
    some (record { token = t })

  unfoldable pub from_request_parts : Parts → Option AuthToken
  unfolding extract_token_from_header
  from_request_parts parts = elim (http.query parts.uri) [
    | some auth_token ↦ some auth_token
    | none ↦ extract_token_from_header parts.headers
  ]

-- `args.token`, the request's token, and the rest of the stack.
unfoldable pub validate_token_middleware :
    {R : Type 0} → Option (List ℕ) → Option AuthToken → R → Response R
validate_token_middleware none auth_token answer = served answer
validate_token_middleware (some token) none answer = unauthorized
validate_token_middleware (some token) (some auth_token) answer =
    elim (text_eq auth_token.token token) [ true ↦ served answer | false ↦ unauthorized ]

-- The middleware behind its extractor.
unfoldable pub guard : (http : Http) {R : Type 0} → Option (List ℕ) → Parts http → R → Response R
unfolding from_request_parts validate_token_middleware
guard http token parts answer =
    validate_token_middleware token (from_request_parts http parts) answer
