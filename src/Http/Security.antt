-- ===== src/Http/Security.antt =====
-- `SecurityHeadersMiddleware` of backend/app/security.py. A header is a pair of byte strings; the
-- application behind the middleware is given by the headers that its response starts with.
pub mod Laws
pub mod Redirects
use ephemeral_rooms.Prelude.{
  ℕ, ◌+◌, Bool, true, false, not, ◌&&◌, ◌||◌, Option, none, some, List, [], ◌∷◌, ◌++◌, map,
  if◌then◌else◌, ◌==◌, leb, any, same, codes,
}
use ephemeral_rooms.Storage.FileStore.{Bytes}
use ephemeral_rooms.Rooms.Instance.State.{is_empty}

abbrev pub Headers : Type 0
Headers = List (Bytes × Bytes)

-- An ASGI scope; `is_http` is whether its type is "http".
pub record Scope : Type 0 where
  pub is_http : Bool
  pub scheme : Bytes
  pub headers : Headers
  pub raw_path : Option Bytes
  pub path : Bytes
  pub query_string : Bytes

-- `"; ".join(…)`
abbrev pub join_directives : List Bytes → Bytes
join_directives [] = []
join_directives (d ∷ []) = d
join_directives (d ∷ e ∷ ds) = d ++ (codes "; " ++ join_directives (e ∷ ds))

unfoldable pub content_security_policy : Bytes
content_security_policy = join_directives (
    codes "default-src 'self'"
    ∷ codes "frame-ancestors 'none'"
    ∷ codes "frame-src 'none'"
    ∷ codes "object-src 'none'"
    ∷ codes "base-uri 'none'"
    ∷ codes "form-action 'self'"
    ∷ codes "script-src 'self'"
    ∷ codes "style-src 'self' 'unsafe-inline'"
    ∷ codes "img-src 'self' data:"
    ∷ codes "font-src 'self'"
    ∷ codes "connect-src 'self'"
    ∷ codes "media-src 'self' blob:"
    ∷ codes "worker-src 'self' blob:"
    ∷ codes "manifest-src 'self'"
    ∷ [])

abbrev pub permissions_policy : Bytes
permissions_policy =
    codes "accelerometer=(), camera=(), geolocation=(), gyroscope=(), "
    ++ codes "magnetometer=(), microphone=(), payment=(), usb=()"

abbrev pub base_headers : Headers
base_headers =
    (codes "content-security-policy", content_security_policy)
    ∷ (codes "referrer-policy", codes "no-referrer")
    ∷ (codes "x-content-type-options", codes "nosniff")
    ∷ (codes "x-frame-options", codes "DENY")
    ∷ (codes "cross-origin-opener-policy", codes "same-origin")
    ∷ (codes "cross-origin-resource-policy", codes "same-origin")
    ∷ (codes "permissions-policy", permissions_policy)
    ∷ []

abbrev pub hsts_name : Bytes
hsts_name = codes "strict-transport-security"

abbrev pub strict_transport_security : Bytes
strict_transport_security = codes "max-age=63072000; includeSubDomains; preload"

-- `bytes.lower`
abbrev pub lower_byte : ℕ → ℕ
lower_byte c = if leb 65 c && leb c 90 then c + 32 else c

unfoldable pub lower : Bytes → Bytes
lower s = map lower_byte s

-- `bytes.strip`: ASCII whitespace.
abbrev pub is_ascii_space : ℕ → Bool
is_ascii_space c = (leb 9 c && leb c 13) || (c == 32)

abbrev pub lstrip_bytes : Bytes → Bytes
lstrip_bytes [] = []
lstrip_bytes (c ∷ s) = let rest = lstrip_bytes s in if is_ascii_space c then rest else c ∷ s

abbrev pub rstrip_bytes : Bytes → Bytes
rstrip_bytes [] = []
rstrip_bytes (c ∷ s) = elim (rstrip_bytes s) [
  | [] ↦ if is_ascii_space c then [] else c ∷ []
  | d ∷ t ↦ c ∷ d ∷ t
]

-- `value.split(b",")[0]`
abbrev pub before_comma : Bytes → Bytes
before_comma [] = []
before_comma (c ∷ s) = let rest = before_comma s in if c == 44 then [] else c ∷ rest

-- The value of the first header with this name.
unfoldable pub first_value : Bytes → Headers → Option Bytes
first_value name [] = none
first_value name ((n, v) ∷ hs) = if same n name then some v else first_value name hs

-- What the nearest header of a proxy says of the client's scheme.
unfoldable pub forwarded_scheme : Headers → Option Bytes
forwarded_scheme hs = elim (first_value (codes "x-forwarded-proto") hs) [
  | none ↦ none
  | some value ↦ some (rstrip_bytes (lstrip_bytes (before_comma value)))
]

unfoldable pub is_https : Scope → Bool
is_https scope =
    if same scope.scheme (codes "https") || same scope.scheme (codes "wss")
    then true
    else elim (forwarded_scheme scope.headers) [
      | none ↦ false
      | some scheme ↦ same scheme (codes "https")
    ]

unfoldable pub proxied_over_http : Scope → Bool
proxied_over_http scope = elim (forwarded_scheme scope.headers) [
  | none ↦ false
  | some scheme ↦ same (lower scheme) (codes "http")
]

-- `{name.lower() for name, _ in headers}`
abbrev pub present_names : Headers → List Bytes
present_names [] = []
present_names ((n, v) ∷ hs) = lower n ∷ present_names hs

-- The headers of `base` whose names are not present.
unfoldable pub missing : List Bytes → Headers → Headers
missing present [] = []
missing present ((n, v) ∷ base) =
    let rest = missing present base in if any (λ p. same p n) present then rest else (n, v) ∷ rest

-- The header that only a secure connection gets.
abbrev pub hsts_headers : Bool → List Bytes → Headers
hsts_headers secure present =
    if secure && not (any (λ p. same p hsts_name) present)
    then (hsts_name, strict_transport_security) ∷ []
    else []

-- `send_with_headers`, of the message that starts a response.
unfoldable pub with_headers : Bool → Headers → Headers
with_headers secure headers =
    let present = present_names headers in
    headers ++ (missing present base_headers ++ hsts_headers secure present)

-- How a response starts.
pub record Start : Type 0 where
  pub status : ℕ
  pub headers : Headers

abbrev pub or_path : Option Bytes → Bytes → Bytes
or_path none path = path
or_path (some []) path = path
or_path (some (c ∷ raw)) path = c ∷ raw

abbrev pub host_of : Headers → Bytes
host_of hs = elim (first_value (codes "host") hs) [ none ↦ [] | some v ↦ v ]

abbrev pub query_part : Bytes → Bytes
query_part [] = []
query_part (c ∷ query) = codes "?" ++ c ∷ query

unfoldable pub target : Scope → Bytes
target scope =
    codes "https://"
    ++ (host_of scope.headers
        ++ (or_path scope.raw_path scope.path ++ query_part scope.query_string))

abbrev pub redirect_headers : Bytes → Headers
redirect_headers to =
    (codes "location", to)
    ∷ (codes "content-length", codes "0")
    ∷ (codes "cache-control", codes "no-store")
    ∷ []

unfoldable pub redirect_to_https : Scope → Start
redirect_to_https scope =
    if is_empty (host_of scope.headers)
    then record { status = 400; headers = [] }
    else record { status = 301; headers = redirect_headers (target scope) ++ base_headers }

-- `__call__`: the start of the response, where `answer` is the application's.
unfoldable pub call : Bool → Scope → Start → Start
call redirect_https scope answer =
    if not scope.is_http
    then answer
    else if not (is_https scope) && redirect_https && proxied_over_http scope
    then redirect_to_https scope
    else record answer { headers = with_headers (is_https scope) answer.headers }
