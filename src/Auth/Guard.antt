-- ===== src/Auth/Guard.antt =====
-- Exactly which requests `validate_token_middleware` of mcp-server/src/auth.rs lets through.
use mcp_server_allenheath_dl.Prelude.{
  ℕ, ◌∙◌, ap, ◌≡◌, refl, ◌↔◌, ◌⊎◌, inl, inr, false, List, [], ◌∷◌, ◌++◌, Option, none, some,
  Option-cases, Bool-cases, arith,
}
use mcp_server_allenheath_dl.Text.{codes, text_eq, text_eq_refl, text_eq_sound, strip_prefix}
use mcp_server_allenheath_dl.Auth.{
  Http, Parts, served, extract_token_from_header, from_request_parts, validate_token_middleware,
  guard,
}

strip_prefix-append : (p s : List ℕ) → strip_prefix p (p ++ s) ≡ some s
strip_prefix-append [] s = refl
strip_prefix-append (c ∷ p) s = ground (arith, strip_prefix-append p s)

strip_prefix_sound : (p s t : List ℕ) → strip_prefix p s ≡ some t → s ≡ p ++ t
strip_prefix_sound [] s t e = ground arith
strip_prefix_sound (c ∷ p) [] t e = cc
strip_prefix_sound (c ∷ p) (d ∷ s) t e = ground (arith, strip_prefix_sound p s t)

module _ (http : Http) (parts : Parts http) where
  -- The request has an `Authorization` header that reads "Bearer " and the token.
  abbrev HasBearer : List ℕ → Type 0
  HasBearer t =
      (value : http.HeaderValue) × (http.get parts.headers (codes "Authorization") ≡ some value)
      × (http.to_str value ≡ some (codes "Bearer " ++ t))

  -- A token in the query comes before one in the header.
  abbrev Presents : List ℕ → Type 0
  Presents t =
      (http.query parts.uri ≡ some (record { token = t }))
      ⊎ ((http.query parts.uri ≡ none) × HasBearer t)

  -- No token is configured, or the request presents the one that is.
  abbrev pub Permits : Option (List ℕ) → Type 0
  Permits none = Unit
  Permits (some t) = Presents t

  extract_token_from_header_iff :
      (t : List ℕ)
      → (extract_token_from_header http parts.headers ≡ some (record { token = t })) ↔ HasBearer t
  unfolding extract_token_from_header
  extract_token_from_header_iff t = (to, from)
    where
      to : extract_token_from_header http parts.headers ≡ some (record { token = t }) → HasBearer t
      to e = elim (Option-cases (http.get parts.headers (codes "Authorization"))) [
        | inl none_found ↦ ground arith
        | inr (value, found) ↦ elim (Option-cases (http.to_str value)) [
          | inl unreadable ↦ ground arith
          | inr (text, read) ↦ elim (Option-cases (strip_prefix (codes "Bearer ") text)) [
            | inl other ↦ ground arith
            | inr (u, stripped) ↦
                let whole = strip_prefix_sound (codes "Bearer ") text u stripped in
                let same : u ≡ t = ground arith in (value, found, rw (read, whole, same) refl)
          ]
        ]
      ]

      from :
          HasBearer t → extract_token_from_header http parts.headers ≡ some (record { token = t })
      from (value, found, read) = rw (found, read) refl

  from_request_parts_iff :
      (t : List ℕ) → (from_request_parts http parts ≡ some (record { token = t })) ↔ Presents t
  unfolding from_request_parts
  from_request_parts_iff t = elim (Option-cases (http.query parts.uri)) [
    | inl none_asked ↦ (
      (λ e. inr (
        none_asked,
        (extract_token_from_header_iff t).0 (rw (from_request_parts, none_asked) at e),
      )),
      (λ h. elim h [
        | inl e ↦ ground arith
        | inr (_, bearer) ↦
            rw (from_request_parts, none_asked) ((extract_token_from_header_iff t).1 bearer)
      ]),
    )
    | inr (asked, found) ↦ (
      (λ e. inl (found ∙ (rw (from_request_parts, found) at e))),
      (λ h. elim h [
        | inl e ↦ rw (from_request_parts, found) (cc)
        | inr (none_asked, _) ↦ ground arith
      ]),
    )
  ]

  -- A request is served exactly if no token is configured, or the request presents the configured one,
  -- in its query, or without a readable token there in its header.
  pub guard_iff :
      {R : Type 0} (token : Option (List ℕ)) (answer : R)
      → (guard http token parts answer ≡ served answer) ↔ Permits token
  unfolding guard
  guard_iff none answer = (λ e. tt, λ h. refl)
  guard_iff (some t) answer = elim (Option-cases (from_request_parts http parts)) [
    | inl none_given ↦ (
      (λ e. let refused = rw (guard, none_given) at e in cc),
      (λ h. let presented = (from_request_parts_iff t).1 h in ground arith),
    )
    | inr (given, found) ↦ elim (Bool-cases (text_eq given.token t)) [
      | inl same ↦
          let is_token : given.token ≡ t = text_eq_sound given.token t same in
          (
            (λ e.
                (from_request_parts_iff t).0
                  (found ∙ ap (λ u. some (record { token = u })) is_token)),
            (λ h. rw (guard, found, validate_token_middleware, same) refl),
          )
      | inr other ↦ (
        (λ e. let refused = rw (guard, found, validate_token_middleware, other) at e in cc),
        (λ h.
            let presented = (from_request_parts_iff t).1 h in
            let differs : text_eq t t ≡ false = ground arith in ground (arith, text_eq_refl t)),
      )
    ]
  ]
