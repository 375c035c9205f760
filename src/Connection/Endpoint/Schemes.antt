-- ===== src/Connection/Endpoint/Schemes.antt =====
-- connection.go: the URL that the client dials, by its endpoint.
use realtime_go.Common.{
  ◌≡◌, ◌↔◌, refl, sym, ap, subst, ◌∙◌, inl, inr, none, some, [], ◌∷◌, ◌++◌, Bytes, ◌==◌, ==_iff,
  Bool-cases, Option-cases,
}
use realtime_go.Common.Strings.{after_prefix}
use realtime_go.Connection.Endpoint.{
  ws_scheme, wss_scheme, http_scheme, https_scheme, or_default, resolve_scheme, endpoint_to_ws_url,
}

-- What an endpoint is dialled as: the service when it is empty, a websocket URL as it is, an http(s)
-- URL with "ws" for "http", and anything else as a host behind "wss://".
pub data Dialled (endpoint url : Bytes) : Type 0 where
  -- wss://realtime.foony.io
  dial_service :
      endpoint ≡ []
      → url
        ≡ b'w' ∷ b's' ∷ b's' ∷ b':' ∷ b'/' ∷ b'/' ∷ b'r' ∷ b'e' ∷ b'a' ∷ b'l' ∷ b't' ∷ b'i' ∷ b'm'
          ∷ b'e' ∷ b'.' ∷ b'f' ∷ b'o' ∷ b'o' ∷ b'n' ∷ b'y' ∷ b'.' ∷ b'i' ∷ b'o' ∷ []
      → Dialled endpoint url
  dial_ws :
      (rest : Bytes)
      → endpoint ≡ b'w' ∷ b's' ∷ b':' ∷ b'/' ∷ b'/' ∷ rest
      → url ≡ b'w' ∷ b's' ∷ b':' ∷ b'/' ∷ b'/' ∷ rest
      → Dialled endpoint url
  dial_wss :
      (rest : Bytes)
      → endpoint ≡ b'w' ∷ b's' ∷ b's' ∷ b':' ∷ b'/' ∷ b'/' ∷ rest
      → url ≡ b'w' ∷ b's' ∷ b's' ∷ b':' ∷ b'/' ∷ b'/' ∷ rest
      → Dialled endpoint url
  dial_http :
      (rest : Bytes)
      → endpoint ≡ b'h' ∷ b't' ∷ b't' ∷ b'p' ∷ b':' ∷ b'/' ∷ b'/' ∷ rest
      → url ≡ b'w' ∷ b's' ∷ b':' ∷ b'/' ∷ b'/' ∷ rest
      → Dialled endpoint url
  dial_https :
      (rest : Bytes)
      → endpoint ≡ b'h' ∷ b't' ∷ b't' ∷ b'p' ∷ b's' ∷ b':' ∷ b'/' ∷ b'/' ∷ rest
      → url ≡ b'w' ∷ b's' ∷ b's' ∷ b':' ∷ b'/' ∷ b'/' ∷ rest
      → Dialled endpoint url
  dial_host :
      ¬ (endpoint ≡ [])
      → ((rest : Bytes) → ¬ (endpoint ≡ b'w' ∷ b's' ∷ b':' ∷ b'/' ∷ b'/' ∷ rest))
      → ((rest : Bytes) → ¬ (endpoint ≡ b'w' ∷ b's' ∷ b's' ∷ b':' ∷ b'/' ∷ b'/' ∷ rest))
      → ((rest : Bytes) → ¬ (endpoint ≡ b'h' ∷ b't' ∷ b't' ∷ b'p' ∷ b':' ∷ b'/' ∷ b'/' ∷ rest))
      → ((rest : Bytes)
          → ¬ (endpoint ≡ b'h' ∷ b't' ∷ b't' ∷ b'p' ∷ b's' ∷ b':' ∷ b'/' ∷ b'/' ∷ rest))
      → url ≡ b'w' ∷ b's' ∷ b's' ∷ b':' ∷ b'/' ∷ b'/' ∷ endpoint
      → Dialled endpoint url

after_prefix-found : (p s rest : Bytes) → after_prefix p s ≡ some rest → s ≡ p ++ rest
unfolding after_prefix
after_prefix-found [] s rest h = cc h
after_prefix-found (c ∷ p) [] rest h = absurd (cc h)
after_prefix-found (c ∷ p) (d ∷ s) rest h = elim (Bool-cases (c == d)) [
  | inl e ↦
      let here : c ≡ d = (==_iff c d).0 e in cc (here, after_prefix-found p s rest (rw e at h))
  | inr e ↦ absurd (cc (rw e at h))
]

after_prefix-append : (p rest : Bytes) → after_prefix p (p ++ rest) ≡ some rest
unfolding after_prefix
after_prefix-append [] rest = refl
after_prefix-append (c ∷ p) rest = rw ((==_iff c c).1 refl) (after_prefix-append p rest)

-- Without the prefix, nothing follows it.
no_prefix : (p s : Bytes) → ((rest : Bytes) → ¬ (s ≡ p ++ rest)) → after_prefix p s ≡ none
no_prefix p s h = elim (Option-cases (after_prefix p s)) [
  | inl e ↦ e
  | inr q ↦ absurd (h q.0 (after_prefix-found p s q.0 q.1))
]

none_of_prefix : (p s rest : Bytes) → after_prefix p s ≡ none → ¬ (s ≡ p ++ rest)
none_of_prefix p s rest h e = absurd (cc (h, ap (after_prefix p) e, after_prefix-append p rest))

resolve_scheme-Dialled : (s : Bytes) → ¬ (s ≡ []) → Dialled s (resolve_scheme s)
unfolding resolve_scheme
resolve_scheme-Dialled s n = elim (Option-cases (after_prefix ws_scheme s)) [
  | inr q ↦ let same = after_prefix-found ws_scheme s q.0 q.1 in rw q.1 (dial_ws q.0 same same)
  | inl a ↦ rw a (elim (Option-cases (after_prefix wss_scheme s)) [
    | inr q ↦ let same = after_prefix-found wss_scheme s q.0 q.1 in rw q.1 (dial_wss q.0 same same)
    | inl b ↦ rw b (elim (Option-cases (after_prefix http_scheme s)) [
      | inr q ↦ rw q.1 (dial_http q.0 (after_prefix-found http_scheme s q.0 q.1) refl)
      | inl c ↦ rw c (elim (Option-cases (after_prefix https_scheme s)) [
        | inr q ↦ rw q.1 (dial_https q.0 (after_prefix-found https_scheme s q.0 q.1) refl)
        | inl d ↦ rw d (
            dial_host n (λ rest. none_of_prefix ws_scheme s rest a)
              (λ rest. none_of_prefix wss_scheme s rest b)
              (λ rest. none_of_prefix http_scheme s rest c)
              (λ rest. none_of_prefix https_scheme s rest d) refl)
      ])
    ])
  ])
]

default-Dialled : (endpoint : Bytes) → Dialled endpoint (endpoint_to_ws_url endpoint)
unfolding endpoint_to_ws_url resolve_scheme after_prefix
default-Dialled [] = dial_service refl refl
default-Dialled (c ∷ s) = resolve_scheme-Dialled (c ∷ s) (λ e. absurd (cc e))

as_host :
    (s : Bytes)
    → after_prefix ws_scheme s ≡ none
    → after_prefix wss_scheme s ≡ none
    → after_prefix http_scheme s ≡ none
    → after_prefix https_scheme s ≡ none
    → resolve_scheme s ≡ wss_scheme ++ s
unfolding resolve_scheme
as_host s a b c d = rw (a, b, c, d) refl

or_default_same : (s : Bytes) → ¬ (s ≡ []) → or_default s ≡ s
or_default_same [] n = absurd (n refl)
or_default_same (c ∷ s) n = refl

url_of-Dialled : (endpoint url : Bytes) → Dialled endpoint url → endpoint_to_ws_url endpoint ≡ url
unfolding endpoint_to_ws_url resolve_scheme after_prefix
url_of-Dialled endpoint url (dial_service h k) = ap endpoint_to_ws_url h ∙ sym k
url_of-Dialled endpoint url (dial_ws rest h k) = ap endpoint_to_ws_url h ∙ sym k
url_of-Dialled endpoint url (dial_wss rest h k) = ap endpoint_to_ws_url h ∙ sym k
url_of-Dialled endpoint url (dial_http rest h k) = ap endpoint_to_ws_url h ∙ sym k
url_of-Dialled endpoint url (dial_https rest h k) = ap endpoint_to_ws_url h ∙ sym k
url_of-Dialled endpoint url (dial_host n a b c d k) =
    ap resolve_scheme (or_default_same endpoint n)
    ∙ as_host endpoint (no_prefix ws_scheme endpoint a) (no_prefix wss_scheme endpoint b)
        (no_prefix http_scheme endpoint c) (no_prefix https_scheme endpoint d)
    ∙ sym k

-- The URL that is dialled for an endpoint is exactly this one: for no endpoint the service's, for a
-- ws:// or wss:// URL the URL, for an http:// or https:// URL the same with ws:// or wss://, and for
-- anything else the endpoint as a host behind wss://.
pub endpoint_to_ws_url-Dialled :
    (endpoint url : Bytes) → (endpoint_to_ws_url endpoint ≡ url) ↔ Dialled endpoint url
endpoint_to_ws_url-Dialled endpoint url =
    (λ e. subst (Dialled endpoint) e (default-Dialled endpoint), url_of-Dialled endpoint url)
