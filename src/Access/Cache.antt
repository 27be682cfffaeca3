-- ===== src/Access/Cache.antt =====
-- ngx_http_dmmr_send_cache_request in nginx-dmmr-module-c/ngx_http_dmmr_auth.c. What the sockets do
-- in one attempt is an `Exchange`, a parameter of the code.
use http_dmmr_nginx.Base.{
  ℕ, ◌-◌, Bool, not, ◌||◌, List, [], ◌∷◌, ◌++◌, Option, none, some, if◌then◌else◌, Bytes, bytes_eq,
  length, take, drop, be, of_be, ltb, ◌==◌,
}
use http_dmmr_nginx.Rate.Zone.{Verdict, ok, declined, error}

-- unix:/tmp/dmmr_cache.sock
abbrev pub fallback_unix : Bytes
fallback_unix =
    117 ∷ 110 ∷ 105 ∷ 120 ∷ 58 ∷ 47 ∷ 116 ∷ 109 ∷ 112 ∷ 47 ∷ 100 ∷ 109 ∷ 109 ∷ 114 ∷ 95 ∷ 99 ∷ 97
    ∷ 99 ∷ 104 ∷ 101 ∷ 46 ∷ 115 ∷ 111 ∷ 99 ∷ 107 ∷ []

-- tcp:127.0.0.1:9080
abbrev pub fallback_tcp : Bytes
fallback_tcp =
    116 ∷ 99 ∷ 112 ∷ 58 ∷ 49 ∷ 50 ∷ 55 ∷ 46 ∷ 48 ∷ 46 ∷ 48 ∷ 46 ∷ 49 ∷ 58 ∷ 57 ∷ 48 ∷ 56 ∷ 48 ∷ []

abbrev pub differs : Bytes → Bytes → Bool
differs cache_addr fallback = (length cache_addr == 0) || not (bytes_eq cache_addr fallback)

-- The addresses that are tried, in order.
unfoldable pub candidates : Bytes → List Bytes
candidates cache_addr =
    let first = if length cache_addr == 0 then fallback_unix else cache_addr in
    if differs cache_addr fallback_unix
    then (if differs cache_addr fallback_tcp
        then first ∷ fallback_unix ∷ fallback_tcp ∷ []
        else first ∷ fallback_unix ∷ [])
    else first ∷ []

-- What one attempt meets: whether it connects, whether the whole request is sent, and the chunks
-- that recv gives before it closes or fails.
pub record Exchange : Type 0 where
  pub connected : Bool
  pub sent : Bool
  pub chunks : List Bytes

-- A recv loop that wants `n` more bytes: the bytes it gets, and the chunks left.
unfoldable pub recv_loop : ℕ → List Bytes → Bytes × List Bytes
recv_loop n [] = ([], [])
recv_loop n (c ∷ rest) =
    let later = recv_loop (n - length c) rest in
    if n == 0
    then ([], c ∷ rest)
    else if length c == 0
    then ([], rest)
    else if ltb n (length c)
    then (take n c, drop n c ∷ rest)
    else (c ++ later.0, later.1)

-- The request frame with its key.
unfoldable pub request_of : Bytes → Bytes
request_of api_key =
    be 2 0xd4d4
    ++ (be 2 1
        ++ (be 2 1 ++ (be 2 0 ++ (be 4 (length api_key) ++ (be 4 0 ++ (be 8 0 ++ api_key))))))

pub data Answer : Type 0 where
  no_answer : Answer
  answered : ℕ → Bytes → Answer

-- The body, once the header is there.
unfoldable pub read_body : Bytes → List Bytes → Answer
read_body header chunks =
    let status = of_be (take 2 header) in
    let resp_len = of_be (take 4 (drop 2 header)) in
    let body = (recv_loop resp_len chunks).0 in
    if ltb (4096 - 8) resp_len
    then no_answer
    else if ltb (length body) resp_len
    then no_answer
    else answered status body

-- One turn of the inner loop.
unfoldable pub attempt : Exchange → Answer
attempt x =
    let (header, rest) = recv_loop 8 x.chunks in
    if not x.connected
    then no_answer
    else if not x.sent
    then no_answer
    else if ltb (length header) 8
    then no_answer
    else read_body header rest

-- The verdict on an answer, and the user info: its bytes are missing when pnalloc fails.
unfoldable pub verdict_of : (ℕ → Bool) → ℕ → Bytes → Verdict × Option Bytes
verdict_of pnalloc status body =
    if status == 0
    then (ok, if pnalloc (length body) then some body else none)
    else (declined, none)

unfoldable pub after_attempt : (ℕ → Bool) → Answer → Verdict × Option Bytes → Verdict × Option Bytes
after_attempt pnalloc no_answer later = later
after_attempt pnalloc (answered status body) later = verdict_of pnalloc status body

-- The loop over the candidates, on what the network does with each.
unfoldable pub try_all :
    (ℕ → Bool) → (Bytes → Exchange) → List Bytes → Verdict × Option Bytes → Verdict × Option Bytes
try_all pnalloc net [] otherwise = otherwise
try_all pnalloc net (c ∷ rest) otherwise =
    after_attempt pnalloc (attempt (net c)) (try_all pnalloc net rest otherwise)

-- `net retry address` is what the attempt at an address meets in a round.
unfoldable pub send_cache_request :
    (ℕ → Bool) → (ℕ → Bytes → Bytes → Exchange) → Option Bytes → Bytes → Verdict × Option Bytes
send_cache_request pnalloc net none api_key = (error, none)
send_cache_request pnalloc net (some cache_addr) api_key =
    if ltb (4096 - 24) (length api_key)
    then (error, none)
    else try_all pnalloc (λ c. net 0 c (request_of api_key)) (candidates cache_addr)
        (try_all pnalloc (λ c. net 1 c (request_of api_key)) (candidates cache_addr) (error, none))
