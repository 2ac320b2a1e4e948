-- ===== src/Http/Security/Redirects.antt =====
-- Every answer that leaves backend/app/security.py, redirects to HTTPS included.
use ephemeral_rooms.Prelude.{
  ◌+◌, ◌≤◌, ◌≡◌, ◌≢◌, ◌⊎◌, inl, inr, refl, Bool, true, false, not, ◌&&◌, [], ◌∷◌, ◌++◌,
  if◌then◌else◌, same, arith, Bool-cases, subst, sym,
}
use ephemeral_rooms.Dict.{has, get}
use ephemeral_rooms.Storage.FileStore.{Bytes}
use ephemeral_rooms.Rooms.Instance.State.{is_empty}
use ephemeral_rooms.Http.Security.{
  Headers, Scope, Start, base_headers, hsts_name, lower, is_https, proxied_over_http, host_of,
  target, redirect_headers, redirect_to_https, with_headers, call,
}
use ephemeral_rooms.Http.Security.Laws.{
  IsLower, base_headers-IsLower, count, count-append, count-with_headers,
}

is_empty→nil : (s : Bytes) → is_empty s ≡ true → s ≡ []
is_empty→nil [] h = refl
is_empty→nil (c ∷ s) h = absurd (ground arith)

has-count : (n : Bytes) (hs : Headers) → IsLower hs → has hs n ≡ true → 1 ≤ count n hs
unfolding has get
has-count n [] low h = absurd (ground arith)
has-count n ((m, v) ∷ hs) (here, low) h = ground (arith, here, has-count n hs low)

hsts_not_base : has base_headers hsts_name ≡ false
unfolding has get same
hsts_not_base = refl

with_headers-has :
    (secure : Bool) (n : Bytes) (hs : Headers)
    → has base_headers n ≡ true
    → 1 ≤ count n (with_headers secure hs)
with_headers-has secure n hs h = ground (arith, count-with_headers secure n hs)

with_headers-hsts :
    (secure : Bool) (hs : Headers)
    → count hsts_name (with_headers secure hs) ≤ count hsts_name hs + (if secure then 1 else 0)
with_headers-hsts secure hs = ground (arith, count-with_headers secure hsts_name hs, hsts_not_base)

redirect_bare :
    (scope : Scope)
    → is_empty (host_of scope.headers) ≡ true
    → redirect_to_https scope ≡ record { status = 400; headers = [] }
unfolding redirect_to_https
redirect_bare scope none_given = ground arith

redirect_given :
    (scope : Scope)
    → is_empty (host_of scope.headers) ≡ false
    → redirect_to_https scope
      ≡ record { status = 301; headers = redirect_headers (target scope) ++ base_headers }
unfolding redirect_to_https
redirect_given scope given = ground arith

redirect-has :
    (n : Bytes) (scope : Scope)
    → has base_headers n ≡ true
    → host_of scope.headers ≢ []
    → 1 ≤ count n (redirect_to_https scope).headers
redirect-has n scope h host = elim (Bool-cases (is_empty (host_of scope.headers))) [
  | inl none_given ↦ absurd (host (is_empty→nil (host_of scope.headers) none_given))
  | inr given ↦
      subst (λ (o : Start). 1 ≤ count n o.headers) (sym (redirect_given scope given))
        (omega (
          arith,
          count-append n (redirect_headers (target scope)) base_headers,
          has-count n base_headers base_headers-IsLower h,
        ))
]

redirect-hsts : (scope : Scope) → count hsts_name (redirect_to_https scope).headers ≡ 0
redirect-hsts scope = elim (Bool-cases (is_empty (host_of scope.headers))) [
  | inl none_given ↦
      subst (λ (o : Start). count hsts_name o.headers ≡ 0) (sym (redirect_bare scope none_given))
        refl
  | inr given ↦
      subst (λ (o : Start). count hsts_name o.headers ≡ 0) (sym (redirect_given scope given))
        (unfold lower same in refl)
]

-- The three ways through the middleware.
call_cases :
    (redirect_https : Bool) (scope : Scope) (answer : Start)
    → ((scope.is_http ≡ false) × (call redirect_https scope answer ≡ answer))
      ⊎ (call redirect_https scope answer ≡ redirect_to_https scope)
      ⊎ (call redirect_https scope answer
          ≡ record answer { headers = with_headers (is_https scope) answer.headers })
unfolding call
call_cases redirect_https scope answer = elim (Bool-cases scope.is_http) [
  | inr other ↦ inl (other, ground arith)
  | inl http ↦
      elim (Bool-cases (not (is_https scope) && redirect_https && proxied_over_http scope)) [
        | inl moved ↦ inr (inl (ground (arith, http, moved)))
        | inr served ↦ inr (inr (ground (arith, http, served)))
      ]
]

-- Every HTTP response that leaves the middleware, a redirect included, has each of the base
-- security headers at least once, if the request names a host.
pub call-base_headers :
    (redirect_https : Bool) (scope : Scope) (answer : Start) (n : Bytes)
    → scope.is_http ≡ true
    → host_of scope.headers ≢ []
    → has base_headers n ≡ true
    → 1 ≤ count n (call redirect_https scope answer).headers
call-base_headers redirect_https scope answer n http host h =
    elim (call_cases redirect_https scope answer) [
      | inl (other, e) ↦ absurd (ground arith)
      | inr (inl e) ↦
          subst (λ (o : Start). 1 ≤ count n o.headers) (sym e) (redirect-has n scope h host)
      | inr (inr e) ↦
          subst (λ (o : Start). 1 ≤ count n o.headers) (sym e)
            (with_headers-has (is_https scope) n answer.headers h)
    ]

-- The middleware adds Strict-Transport-Security at most once, and never to a response of a
-- connection that is not secure.
pub call-hsts :
    (redirect_https : Bool) (scope : Scope) (answer : Start)
    → count hsts_name (call redirect_https scope answer).headers
      ≤ count hsts_name answer.headers + (if is_https scope then 1 else 0)
call-hsts redirect_https scope answer =
    let Bounded : Start → Type 0 = λ o.
      count hsts_name o.headers
      ≤ count hsts_name answer.headers + (if is_https scope then 1 else 0) in
    elim (call_cases redirect_https scope answer) [
      | inl (other, e) ↦ subst Bounded (sym e) (omega arith)
      | inr (inl e) ↦ subst Bounded (sym e) (omega (arith, redirect-hsts scope))
      | inr (inr e) ↦ subst Bounded (sym e) (with_headers-hsts (is_https scope) answer.headers)
    ]
