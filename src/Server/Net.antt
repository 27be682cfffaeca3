-- ===== src/Server/Net.antt =====
-- dmmr_net.c: the loops around recv and send. What the calls give is a sequence of events, a
-- parameter; after the last one recv finds the stream closed and send takes all it is given.
use http_dmmr_nginx.Base.{
  ℕ, ◌-◌, Bool, true, false, List, [], ◌∷◌, ◌++◌, Option, none, some, if◌then◌else◌, Bytes, length,
  take, drop, ltb, ◌==◌,
}

-- One call of recv: bytes, a signal (EINTR), or another error.
pub data Recv : Type 0 where
  arrived : Bytes → Recv
  recv_eintr recv_failed : Recv

-- One call of send: the number of bytes it takes, a signal (EINTR), or another error.
pub data Send : Type 0 where
  took : ℕ → Send
  send_eintr send_failed : Send

abbrev pub with_more : Bytes → Option Bytes × List Recv → Option Bytes × List Recv
with_more c (none, rest) = (none, rest)
with_more c (some bs, rest) = (some (c ++ bs), rest)

-- The bytes of a recv_full of `n` bytes, fewer when the stream is closed, or `none` for -1; and the
-- events left.
unfoldable pub recv_full : ℕ → List Recv → Option Bytes × List Recv
recv_full n [] = (some [], [])
recv_full n (recv_eintr ∷ rest) =
    let later = recv_full n rest in if n == 0 then (some [], recv_eintr ∷ rest) else later
recv_full n (recv_failed ∷ rest) = if n == 0 then (some [], recv_failed ∷ rest) else (none, rest)
recv_full n (arrived c ∷ rest) =
    let later = recv_full (n - length c) rest in
    if n == 0
    then (some [], arrived c ∷ rest)
    else if length c == 0
    then (some [], rest)
    else if ltb n (length c)
    then (some (take n c), arrived (drop n c) ∷ rest)
    else with_more c later

-- Whether everything was sent, what has left, and the events left.
abbrev pub sent_more : Bytes → Bool × Bytes × List Send → Bool × Bytes × List Send
sent_more c (ok, out, rest) = (ok, c ++ out, rest)

unfoldable pub send_full : Bytes → List Send → Bool × Bytes × List Send
send_full bs [] = (true, bs, [])
send_full bs (send_eintr ∷ rest) =
    let later = send_full bs rest in if length bs == 0 then (true, [], send_eintr ∷ rest) else later
send_full bs (send_failed ∷ rest) =
    if length bs == 0 then (true, [], send_failed ∷ rest) else (false, [], rest)
send_full bs (took n ∷ rest) =
    let later = send_full (drop n bs) rest in
    if length bs == 0
    then (true, [], took n ∷ rest)
    else if n == 0
    then (false, [], rest)
    else sent_more (take n bs) later
