-- ===== src/Connection/Endpoint.antt =====
-- connection.go: the URL of an endpoint.
pub mod Schemes
use realtime_go.Common.{Option, none, some, List, [], ◌∷◌, ◌++◌, Bytes}
use realtime_go.Common.Strings.{after_prefix}

-- "realtime.foony.io"
abbrev pub default_endpoint : Bytes
default_endpoint =
    114 ∷ 101 ∷ 97 ∷ 108 ∷ 116 ∷ 105 ∷ 109 ∷ 101 ∷ 46 ∷ 102 ∷ 111 ∷ 111 ∷ 110 ∷ 121 ∷ 46 ∷ 105 ∷ 111
    ∷ []

abbrev pub ws_scheme : Bytes
ws_scheme = 119 ∷ 115 ∷ 58 ∷ 47 ∷ 47 ∷ []

abbrev pub wss_scheme : Bytes
wss_scheme = 119 ∷ 115 ∷ 115 ∷ 58 ∷ 47 ∷ 47 ∷ []

abbrev pub http_scheme : Bytes
http_scheme = 104 ∷ 116 ∷ 116 ∷ 112 ∷ 58 ∷ 47 ∷ 47 ∷ []

abbrev pub https_scheme : Bytes
https_scheme = 104 ∷ 116 ∷ 116 ∷ 112 ∷ 115 ∷ 58 ∷ 47 ∷ 47 ∷ []

abbrev pub or_default : Bytes → Bytes
or_default [] = default_endpoint
or_default (c ∷ s) = c ∷ s

-- One case of the `switch`: what a URL becomes that has a prefix, by the rest of it.
abbrev pub when_prefixed : Option Bytes → (Bytes → Bytes) → Bytes → Bytes
when_prefixed (some rest) f otherwise = f rest
when_prefixed none f otherwise = otherwise

-- The `switch`: a websocket URL as it is, an http(s) one with its scheme changed, else a host.
unfoldable pub resolve_scheme : Bytes → Bytes
resolve_scheme s =
    when_prefixed (after_prefix ws_scheme s) (λ rest. s)
      (when_prefixed (after_prefix wss_scheme s) (λ rest. s)
        (when_prefixed (after_prefix http_scheme s) (λ rest. ws_scheme ++ rest)
          (when_prefixed (after_prefix https_scheme s) (λ rest. wss_scheme ++ rest)
            (wss_scheme ++ s))))

unfoldable pub endpoint_to_ws_url : Bytes → Bytes
endpoint_to_ws_url endpoint = resolve_scheme (or_default endpoint)
