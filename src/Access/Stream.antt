-- ===== src/Access/Stream.antt =====
-- The recv loops of ngx_http_dmmr_send_cache_request: how the answer of the cache is cut into chunks
-- does not matter.
use http_dmmr_nginx.Base.{
  ℕ, zero, suc, ◌≡◌, ◌+◌, ◌-◌, ◌<◌, refl, sym, ap, ◌∙◌, true, false, List, [], ◌∷◌, ◌++◌, arith,
  All, Bytes, length, take-append_short, take-append_long, drop-append_short, drop-append_long,
  length-drop, length-take, ◌||◌, take, drop, of_be, ltb, ◌==◌, if◌then◌else◌, Bool-cases, inl, inr,
}
use http_dmmr_nginx.Access.Cache.{recv_loop, Answer, no_answer, answered, read_body, attempt}

abbrev pub joined : List Bytes → Bytes
joined [] = []
joined (c ∷ rest) = c ++ joined rest

abbrev pub AreChunks : List Bytes → Type 0
AreChunks = All (λ c. 0 < length c)

recv_loop_lem :
    (n : ℕ) (cs : List Bytes)
    → AreChunks cs
    → ((recv_loop n cs).0 ≡ take n (joined cs))
      × (joined (recv_loop n cs).1 ≡ drop n (joined cs))
      × AreChunks (recv_loop n cs).1
unfolding recv_loop
recv_loop_lem zero [] h = (refl, refl, tt)
recv_loop_lem (suc n) [] h = (refl, refl, tt)
recv_loop_lem zero (c ∷ rest) h = (refl, refl, h)
recv_loop_lem (suc n) (c ∷ rest) h = elim (Bool-cases (ltb (suc n) (length c))) [
  | inl cut ↦
      let wanted : (suc n == 0) ≡ false = ground arith in
      let some_of_it : (length c == 0) ≡ false = ground (arith, h.0) in
      rw (wanted, some_of_it, cut)
        (
          sym (take-append_short (suc n) c (joined rest) (ground arith)),
          sym (drop-append_short (suc n) c (joined rest) (ground arith)),
          (ground (arith, length-drop (suc n) c), h.1),
        )
  | inr whole ↦
      let wanted : (suc n == 0) ≡ false = ground arith in
      let some_of_it : (length c == 0) ≡ false = ground (arith, h.0) in
      let later = recv_loop_lem (suc n - length c) rest h.1 in
      rw (wanted, some_of_it, whole)
        (
          ap (λ xs. c ++ xs) later.0
              ∙ sym (take-append_long (suc n) c (joined rest) (ground arith)),
          later.1 ∙ sym (drop-append_long (suc n) c (joined rest) (ground arith)),
          later.2,
        )
]

-- The answer in a stream of bytes: a header of 8 bytes with a status and a length, and the body.
unfoldable pub answer_in : Bytes → Answer
answer_in s =
    let header = take 8 s in
    let resp_len = of_be (take 4 (drop 2 header)) in
    if ltb (length s) 8 || (ltb 4088 resp_len || ltb (length s) (8 + resp_len))
    then no_answer
    else answered (of_be (take 2 header)) (take resp_len (drop 8 s))

-- On a connection that opens and takes the request, an attempt reads the answer that is in the
-- stream, in whatever chunks recv hands it over.
pub attempt-answer_in :
    (cs : List Bytes)
    → AreChunks cs
    → attempt (record { connected = true; sent = true; chunks = cs }) ≡ answer_in (joined cs)
unfolding attempt answer_in read_body
attempt-answer_in cs h =
    let s = joined cs in
    let head = recv_loop_lem 8 cs h in
    let resp_len = of_be (take 4 (drop 2 (take 8 s))) in
    let body = recv_loop_lem resp_len (recv_loop 8 cs).1 head.2 in
    let read : (recv_loop resp_len (recv_loop 8 cs).1).0 ≡ take resp_len (drop 8 s) =
      body.0 ∙ ap (take resp_len) head.1 in
    rw (head.0, read)
      (ground (arith, length-take 8 s, length-take resp_len (drop 8 s), length-drop 8 s))
