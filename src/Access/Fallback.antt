-- ===== src/Access/Fallback.antt =====
-- The rounds of ngx_http_dmmr_send_cache_request over the candidate addresses: the first answer
-- decides.
use http_dmmr_nginx.Base.{
  ℕ, ◌≡◌, ◌≤◌, refl, ap, ◌∙◌, Bool, false, List, [], ◌∷◌, ◌++◌, Option, none, some, arith, Bytes,
  length, append-nil, ltb, ◌-◌,
}
use http_dmmr_nginx.Access.Cache.{
  Exchange, Answer, no_answer, answered, attempt, verdict_of, after_attempt, try_all,
  send_cache_request, candidates, request_of,
}
use http_dmmr_nginx.Rate.Zone.{Verdict, error}

-- The answers of all attempts, in order.
abbrev pub answers : (Bytes → Exchange) → List Bytes → List Answer
answers net [] = []
answers net (c ∷ rest) = attempt (net c) ∷ answers net rest

-- What the first answer in a list says, NGX_ERROR when there is none.
abbrev pub first_of : (ℕ → Bool) → List Answer → Verdict × Option Bytes
first_of pnalloc [] = (error, none)
first_of pnalloc (no_answer ∷ rest) = first_of pnalloc rest
first_of pnalloc (answered status body ∷ rest) = verdict_of pnalloc status body

try_all_lem :
    (pnalloc : ℕ → Bool) (net : Bytes → Exchange) (cs : List Bytes) (later : List Answer)
    → try_all pnalloc net cs (first_of pnalloc later) ≡ first_of pnalloc (answers net cs ++ later)
unfolding try_all after_attempt
try_all_lem pnalloc net [] later = refl
try_all_lem pnalloc net (c ∷ rest) later = go (attempt (net c)) (try_all_lem pnalloc net rest later)
  where
    go :
        (a : Answer)
        → try_all pnalloc net rest (first_of pnalloc later)
          ≡ first_of pnalloc (answers net rest ++ later)
        → after_attempt pnalloc a (try_all pnalloc net rest (first_of pnalloc later))
          ≡ first_of pnalloc ((a ∷ answers net rest) ++ later)
    go no_answer e = e
    go (answered status body) e = refl

-- A key of at most 4072 bytes: the result is what the first answer says in two rounds over the
-- candidate addresses, and NGX_ERROR when no attempt has an answer.
pub send_cache_request_lem :
    (pnalloc : ℕ → Bool) (net : ℕ → Bytes → Bytes → Exchange) (cache_addr api_key : Bytes)
    → length api_key ≤ 4072
    → send_cache_request pnalloc net (some cache_addr) api_key
      ≡ first_of pnalloc (
          answers (λ c. net 0 c (request_of api_key)) (candidates cache_addr)
          ++ answers (λ c. net 1 c (request_of api_key)) (candidates cache_addr))
unfolding send_cache_request
send_cache_request_lem pnalloc net cache_addr api_key fits =
    let first : Bytes → Exchange = λ c. net 0 c (request_of api_key) in
    let second : Bytes → Exchange = λ c. net 1 c (request_of api_key) in
    let short : ltb (4096 - 24) (length api_key) ≡ false = ground arith in
    rw short (
      ap (try_all pnalloc first (candidates cache_addr))
        (try_all_lem pnalloc second (candidates cache_addr) [])
      ∙ (try_all_lem pnalloc first (candidates cache_addr)
            (answers second (candidates cache_addr) ++ [])
          ∙ ap (λ xs. first_of pnalloc (answers first (candidates cache_addr) ++ xs))
              (append-nil _)))
