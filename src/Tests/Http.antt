-- ===== src/Tests/Http.antt =====
-- Examples of the security headers: a plain request behind a proxy, and a secure one.
use ephemeral_rooms.Prelude.{
  ◌+◌, ◌≤◌, refl, true, false, none, [], ◌∷◌, codes, same, if◌then◌else◌, arith,
}
use ephemeral_rooms.Dict.{get, has}
use ephemeral_rooms.Http.Security.{Scope, Start, hsts_name, is_https, call, first_value}
use ephemeral_rooms.Http.Security.Laws.{count}
use ephemeral_rooms.Http.Security.Redirects.{call-base_headers, call-hsts}

abbrev plain_request : Scope
plain_request = record {
  is_http = true;
  scheme = codes "http";
  headers = (codes "host", codes "a.b") ∷ (codes "x-forwarded-proto", codes "HTTP , https") ∷ [];
  raw_path = none;
  path = codes "/1000";
  query_string = [];
}

abbrev an_answer : Start
an_answer = record { status = 200; headers = (codes "X-Frame-Options", codes "DENY") ∷ [] }

call-base_headers_example :
    1 ≤ count (codes "x-frame-options") (call true plain_request an_answer).headers
unfolding first_value get has same
call-base_headers_example =
    call-base_headers true plain_request an_answer (codes "x-frame-options") refl
      (λ e. ground arith) refl

call-hsts_example :
    count hsts_name (call false plain_request an_answer).headers
    ≤ count hsts_name an_answer.headers + (if is_https plain_request then 1 else 0)
call-hsts_example = call-hsts false plain_request an_answer
