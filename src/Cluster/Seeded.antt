-- ===== src/Cluster/Seeded.antt =====
-- What parse_seed of dmmr_cluster.c makes of an address that is written as it should be.
use http_dmmr_nginx.Base.{
  ℕ, ◌≡◌, ◌≢◌, ◌≤◌, refl, ap, ◌∙◌, Bool, true, false, List, [], ◌∷◌, ◌++◌, Option, none, some,
  arith, Bytes, length, if◌then◌else◌, Bool-cases, inl, inr, All, All-append, append_assoc,
  append-nil, sym, take_all, length-append, ◌==◌,
}
use http_dmmr_nginx.Cluster.Peers.{Peer, Self, Endpoint, endpoint_is_self}
use http_dmmr_nginx.Cluster.Seeds.{
  cut_first, cut_last, bracketed, split_seed, seed_at, checked_seed, parse_seed, tokens,
  skip_blanks, discover_seeds, rediscover_from_known_peers, discover_once, seeds_copy, wanted,
  wanted_seeds,
}

cut_last-none : (c : ℕ) (xs : Bytes) → All (λ x. x ≢ c) xs → cut_last c xs ≡ none
unfolding cut_last
cut_last-none c [] h = refl
cut_last-none c (x ∷ xs) h = rw (cut_last-none c xs h.1) (ground (arith, h.0))

cut_last-some :
    (c : ℕ) (before behind : Bytes)
    → All (λ x. x ≢ c) behind
    → cut_last c (before ++ c ∷ behind) ≡ some (before, behind)
unfolding cut_last
cut_last-some c [] behind h = rw (cut_last-none c behind h) (ground arith)
cut_last-some c (x ∷ before) behind h = rw (cut_last-some c before behind h) refl

cut_first-some :
    (c : ℕ) (before behind : Bytes)
    → All (λ x. x ≢ c) before
    → cut_first c (before ++ c ∷ behind) ≡ some (before, behind)
unfolding cut_first
cut_first-some c [] behind h = ground arith
cut_first-some c (x ∷ before) behind h =
    rw (cut_first-some c before behind h.1) (ground (arith, h.0))

-- A seed as it is written: host:port, or [host]:port.
pub record Seed : Type 0 where
  pub host : Bytes
  pub port_text : Bytes
  pub port : ℕ
  pub in_brackets : Bool

unfoldable pub text_of : Seed → Bytes
text_of s =
    if s.in_brackets then 91 ∷ s.host ++ 93 ∷ 58 ∷ s.port_text else s.host ++ 58 ∷ s.port_text

abbrev pub endpoint_of : Seed → Endpoint
endpoint_of s = record { addr = s.host; port = s.port; node_id = 0 }

-- A text without a byte.
abbrev pub Lacks : ℕ → Bytes → Type 0
Lacks c xs = All (λ x. x ≢ c) xs

-- A host of 1 to 255 bytes without brackets, blanks and commas, and the text of a port from 1 to
-- 65535 without colons and commas.
pub record IsSeed (strtol : Bytes → Option ℕ) (s : Seed) : Type 0 where
  pub hosted : (1 ≤ length s.host) × (length s.host ≤ 255)
  pub unbracketed : Lacks 91 s.host × Lacks 93 s.host
  pub unblank : Lacks 32 s.host × Lacks 9 s.host
  pub whole : Lacks 44 s.host × Lacks 44 s.port_text
  pub last : Lacks 58 s.port_text
  pub numbered : 1 ≤ length s.port_text
  pub number : strtol s.port_text ≡ some s.port
  pub ranged : (1 ≤ s.port) × (s.port ≤ 65535)

module _ (strtol : Bytes → Option ℕ) where
  checked_seed-some :
      (s : Seed)
      → IsSeed strtol s
      → checked_seed strtol (some (s.host, s.port_text)) ≡ some (endpoint_of s)
  unfolding checked_seed seed_at
  checked_seed-some s v = rw v.number (ground (arith, v.hosted, v.numbered, v.ranged))

  split_seed-some :
      (brackets : Bool) (host port_text : Bytes)
      → 1 ≤ length host
      → Lacks 91 host
      → Lacks 93 host
      → Lacks 58 port_text
      → split_seed (if brackets then 91 ∷ host ++ 93 ∷ 58 ∷ port_text else host ++ 58 ∷ port_text)
        ≡ some (host, port_text)
  unfolding split_seed bracketed
  split_seed-some true host port_text some_host opens shut last =
      rw (cut_first-some 93 host (58 ∷ port_text) shut) (ground arith)
  split_seed-some false [] port_text some_host opens shut last = absurd (omega (arith, some_host))
  split_seed-some false (c ∷ cs) port_text some_host opens shut last =
      ground (arith, opens.0, cut_last-some 58 (c ∷ cs) port_text last)

  parse_seed-text_of :
      (s : Seed) → IsSeed strtol s → parse_seed strtol (text_of s) ≡ some (endpoint_of s)
  unfolding parse_seed text_of
  parse_seed-text_of s v =
      ap (checked_seed strtol) (
        split_seed-some s.in_brackets s.host s.port_text v.hosted.0 v.unbracketed.0 v.unbracketed.1
          v.last)
      ∙ checked_seed-some s v

-- Seeds behind one another, with commas between them.
unfoldable pub listed : List Seed → Bytes
listed [] = []
listed (s ∷ []) = text_of s
listed (s ∷ t ∷ rest) = text_of s ++ 44 ∷ listed (t ∷ rest)

-- The endpoints of the seeds that are not the node itself.
unfoldable pub other_seeds : Self → List Seed → List Endpoint
other_seeds self [] = []
other_seeds self (s ∷ rest) =
    let later = other_seeds self rest in
    if endpoint_is_self self s.host s.port 0 then later else endpoint_of s ∷ later

tokens-whole : (token xs : Bytes) → Lacks 44 xs → tokens token xs ≡ (token ++ xs) ∷ []
unfolding tokens
tokens-whole token [] h = ap (λ ts. ts ∷ []) (sym (append-nil token))
tokens-whole token (x ∷ xs) h =
    ground (arith, h.0, tokens-whole (token ++ x ∷ []) xs h.1, append_assoc token (x ∷ []) xs)

tokens-first :
    (token xs ys : Bytes)
    → Lacks 44 xs
    → tokens token (xs ++ 44 ∷ ys) ≡ (token ++ xs) ∷ tokens [] ys
unfolding tokens
tokens-first token [] ys h = ap (λ ts. ts ∷ tokens [] ys) (sym (append-nil token))
tokens-first token (x ∷ xs) ys h =
    ground (arith, h.0, tokens-first (token ++ x ∷ []) xs ys h.1, append_assoc token (x ∷ []) xs)

text_of-Lacks : (s : Seed) → Lacks 44 s.host × Lacks 44 s.port_text → Lacks 44 (text_of s)
unfolding text_of
text_of-Lacks s h = elim (Bool-cases s.in_brackets) [
  | inl shown ↦ rw shown (omega arith, All-append _ s.host _ h.0 (omega arith, (omega arith, h.1)))
  | inr bare ↦ rw bare (All-append _ s.host _ h.0 (omega arith, h.1))
]

skip_blanks-host_port :
    (host rest : Bytes)
    → 1 ≤ length host
    → Lacks 32 host
    → Lacks 9 host
    → skip_blanks (host ++ rest) ≡ host ++ rest
unfolding skip_blanks
skip_blanks-host_port [] rest some_host space tab = absurd (omega (arith, some_host))
skip_blanks-host_port (c ∷ cs) rest some_host space tab = ground (arith, space.0, tab.0)

skip_blanks-text_of :
    (s : Seed)
    → 1 ≤ length s.host
    → Lacks 32 s.host × Lacks 9 s.host
    → skip_blanks (text_of s) ≡ text_of s
unfolding text_of skip_blanks
skip_blanks-text_of s some_host h = elim (Bool-cases s.in_brackets) [
  | inl shown ↦ rw shown refl
  | inr bare ↦ rw bare (skip_blanks-host_port s.host (58 ∷ s.port_text) some_host h.0 h.1)
]

seeds_copy_lem : (text : Bytes) → length text ≤ 2047 → seeds_copy text ≡ text
unfolding seeds_copy
seeds_copy_lem text fits = take_all 2047 text fits

text_of-length : (s : Seed) → 1 ≤ length (text_of s)
unfolding text_of
text_of-length s = elim (Bool-cases s.in_brackets) [
  | inl shown ↦ rw shown (omega arith)
  | inr bare ↦ rw bare (omega (arith, length-append s.host (58 ∷ s.port_text)))
]

listed-length : (s : Seed) (rest : List Seed) → 1 ≤ length (listed (s ∷ rest))
unfolding listed
listed-length s [] = text_of-length s
listed-length s (t ∷ rest) =
    omega (arith, length-append (text_of s) (44 ∷ listed (t ∷ rest)), text_of-length s)

module _ (strtol : Bytes → Option ℕ) (self : Self) where
  wanted_seeds-first :
      (s : Seed) (ts : List Bytes)
      → IsSeed strtol s
      → wanted_seeds strtol self (text_of s ∷ ts) ≡ (
          if endpoint_is_self self s.host s.port 0
          then wanted_seeds strtol self ts
          else endpoint_of s ∷ wanted_seeds strtol self ts)
  unfolding wanted_seeds wanted
  wanted_seeds-first s ts v =
      rw (skip_blanks-text_of s v.hosted.0 v.unblank, parse_seed-text_of strtol s v) (ground arith)

  wanted_seeds-listed :
      (seeds : List Seed)
      → All (IsSeed strtol) seeds
      → wanted_seeds strtol self (tokens [] (listed seeds)) ≡ other_seeds self seeds
  unfolding wanted_seeds listed other_seeds tokens parse_seed split_seed checked_seed wanted
      skip_blanks
  wanted_seeds-listed [] h = refl
  wanted_seeds-listed (s ∷ []) h =
      rw (tokens-whole [] (text_of s) (text_of-Lacks s h.0.whole)) (wanted_seeds-first s [] h.0)
  wanted_seeds-listed (s ∷ t ∷ rest) h =
      rw
        (
          tokens-first [] (text_of s) (listed (t ∷ rest)) (text_of-Lacks s h.0.whole),
          wanted_seeds-first s (tokens [] (listed (t ∷ rest))) h.0,
          wanted_seeds-listed (t ∷ rest) h.1,
        )
        refl

  nothing :
      (hello : Endpoint → Option (List Endpoint)) (snapshot : Endpoint → Bool) (peers : List Peer)
      (completed : Bool)
      → let found = discover_seeds hello snapshot (other_seeds self []) completed in
        discover_once strtol hello snapshot self (listed []) peers completed
        ≡ (found.0 ++ rediscover_from_known_peers self peers, found.1)
  unfolding discover_once listed other_seeds discover_seeds
  nothing hello snapshot peers completed = refl

  -- A round of discovery on seeds that are written with commas between them in at most 2047 bytes, each
  -- a host of 1 to 255 bytes without brackets, blanks and commas, in brackets or not, a colon, and a port
  -- from 1 to 65535 as a text without colons and commas: it goes through the endpoints of those that are
  -- not the node itself, in order, and then says HELLO to the known peers.
  pub discover_once-listed :
      (hello : Endpoint → Option (List Endpoint)) (snapshot : Endpoint → Bool) (seeds : List Seed)
      (peers : List Peer) (completed : Bool)
      → All (IsSeed strtol) seeds
      → length (listed seeds) ≤ 2047
      → let found = discover_seeds hello snapshot (other_seeds self seeds) completed in
        discover_once strtol hello snapshot self (listed seeds) peers completed
        ≡ (found.0 ++ rediscover_from_known_peers self peers, found.1)
  unfolding discover_once
  discover_once-listed hello snapshot [] peers completed v fits =
      nothing hello snapshot peers completed
  discover_once-listed hello snapshot (s ∷ rest) peers completed v fits =
      let some_text : (length (listed (s ∷ rest)) == 0) ≡ false =
        ground (arith, listed-length s rest) in
      rw (some_text, seeds_copy_lem (listed (s ∷ rest)) fits, wanted_seeds-listed (s ∷ rest) v) refl
