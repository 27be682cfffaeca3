-- ===== src/Cluster/Seeds.antt =====
-- Configuration and discovery in dmmr_cluster.c: cluster_configure, parse_seed, discover_once with
-- discover_seed, and rediscover_from_known_peers. strtol is a parameter: the number of a text that it
-- reads to its end, or `none`. What a HELLO and a snapshot give are parameters too.
use http_dmmr_nginx.Base.{
  ℕ, ◌-◌, Bool, not, ◌&&◌, ◌||◌, List, [], ◌∷◌, ◌++◌, Option, none, some, if◌then◌else◌, Bytes,
  bytes_eq, length, take, ltb, ◌==◌,
}
use http_dmmr_nginx.Config.{cluster_name_max}
use http_dmmr_nginx.Cluster.Peers.{Self, Endpoint, Peer, endpoint_is_self}

-- The settings of the cluster.
pub record Settings : Type 0 where
  pub advertise_address : Bytes
  pub advertise_port : ℕ
  pub seeds : Bytes
  pub discovery_interval_seconds : ℕ
  pub name : Bytes
  pub secret : Bytes

unfoldable pub configured_address : Option Bytes → Bytes → Bytes
configured_address none old = old
configured_address (some addr) old =
    if not (length addr == 0) && not (ltb 255 (length addr)) then addr else old

-- strlcpy into a buffer of 2048 bytes.
unfoldable pub configured_seeds : Option Bytes → Bytes → Bytes
configured_seeds none old = old
configured_seeds (some seeds) old = take 2047 seeds

-- A string that is taken if it has at most `most` bytes.
unfoldable pub configured_string : ℕ → Option Bytes → Bytes → Bytes
configured_string most none old = old
configured_string most (some text) old = if ltb most (length text) then old else text

-- Strings are without their NUL, `none` is NULL; the port and the interval are not negative.
unfoldable pub cluster_configure :
    Option Bytes → ℕ → Option Bytes → ℕ → Option Bytes → Option Bytes → Settings → Settings
cluster_configure address port seeds interval name secret s = record {
  advertise_address = configured_address address s.advertise_address;
  advertise_port = if not (ltb port 1) && not (ltb 65535 port) then port else s.advertise_port;
  seeds = configured_seeds seeds s.seeds;
  discovery_interval_seconds = if ltb 0 interval then interval else s.discovery_interval_seconds;
  name = configured_string cluster_name_max name s.name;
  secret = configured_string 128 secret s.secret;
}

-- What is before the first byte c, and what is behind it.
unfoldable pub cut_first : ℕ → Bytes → Option (Bytes × Bytes)
cut_first c [] = none
cut_first c (x ∷ xs) = let later = cut_first c xs in if x == c then some ([], xs) else grown later
  where
    grown : Option (Bytes × Bytes) → Option (Bytes × Bytes)
    grown none = none
    grown (some (before, behind)) = some (x ∷ before, behind)

-- What is before the last byte c, and what is behind it.
unfoldable pub cut_last : ℕ → Bytes → Option (Bytes × Bytes)
cut_last c [] = none
cut_last c (x ∷ xs) = grown (cut_last c xs)
  where
    grown : Option (Bytes × Bytes) → Option (Bytes × Bytes)
    grown (some (before, behind)) = some (x ∷ before, behind)
    grown none = if x == c then some ([], xs) else none

-- The text behind a bracket: a colon, and the text of the port.
unfoldable pub bracketed : Option (Bytes × Bytes) → Option (Bytes × Bytes)
bracketed none = none
bracketed (some (host, [])) = none
bracketed (some (host, c ∷ port_text)) = if c == 58 then some (host, port_text) else none

-- The host and the text of the port, [host]:port or host:port.
unfoldable pub split_seed : Bytes → Option (Bytes × Bytes)
split_seed [] = none
split_seed (c ∷ cs) = if c == 91 then bracketed (cut_first 93 cs) else cut_last 58 (c ∷ cs)

-- The blanks in front of a token.
unfoldable pub skip_blanks : Bytes → Bytes
skip_blanks [] = []
skip_blanks (c ∷ cs) = let later = skip_blanks cs in if (c == 32) || (c == 9) then later else c ∷ cs

-- The texts between commas.
unfoldable pub tokens : Bytes → Bytes → List Bytes
tokens token [] = token ∷ []
tokens token (c ∷ cs) =
    let ended = tokens [] cs in
    let longer = tokens (token ++ c ∷ []) cs in if c == 44 then token ∷ ended else longer

unfoldable pub wanted : Self → Option Endpoint → List Endpoint
wanted self none = []
wanted self (some seed) = if endpoint_is_self self seed.addr seed.port 0 then [] else seed ∷ []

module _ (strtol : Bytes → Option ℕ) where
  unfoldable pub seed_at : Bytes → Option ℕ → Option Endpoint
  seed_at host none = none
  seed_at host (some port) =
      if ltb port 1 || ltb 65535 port
      then none
      else some (record { addr = host; port = port; node_id = 0 })

  unfoldable pub checked_seed : Option (Bytes × Bytes) → Option Endpoint
  checked_seed none = none
  checked_seed (some (host, port_text)) =
      if (length host == 0) || (ltb 255 (length host) || (length port_text == 0))
      then none
      else seed_at host (strtol port_text)

  unfoldable pub parse_seed : Bytes → Option Endpoint
  parse_seed text = checked_seed (split_seed text)

  unfoldable pub wanted_seeds : Self → List Bytes → List Endpoint
  wanted_seeds self [] = []
  wanted_seeds self (t ∷ ts) = wanted self (parse_seed (skip_blanks t)) ++ wanted_seeds self ts

-- What discovery does, in order.
pub data Discovery : Type 0 where
  adds_seed : Endpoint → Discovery
  greets : Endpoint → Discovery
  fetches_snapshot : Endpoint → Discovery

-- A HELLO to every endpoint of a list but the seed.
unfoldable pub greet_others : Endpoint → List Endpoint → List Discovery
greet_others seed [] = []
greet_others seed (e ∷ es) =
    let later = greet_others seed es in
    if not (e.port == seed.port) || not (bytes_eq e.addr seed.addr) then greets e ∷ later else later

-- The peers that answer a HELLO, if it is answered, and whether a snapshot is fetched whole.
module _ (hello : Endpoint → Option (List Endpoint)) (snapshot : Endpoint → Bool) where
  unfoldable pub heard : Endpoint → Bool → Option (List Endpoint) → List Discovery × Bool
  heard seed completed none = (adds_seed seed ∷ greets seed ∷ [], completed)
  heard seed completed (some peers) =
      let asked = if completed then [] else fetches_snapshot seed ∷ [] in
      (
        adds_seed seed ∷ greets seed ∷ (greet_others seed peers ++ asked),
        completed || snapshot seed,
      )

  -- The steps, and bootstrap_completed behind them.
  unfoldable pub discover_seed : Endpoint → Bool → List Discovery × Bool
  discover_seed seed completed = heard seed completed (hello seed)

  unfoldable pub discover_seeds : List Endpoint → Bool → List Discovery × Bool
  discover_seeds [] completed = ([], completed)
  discover_seeds (seed ∷ rest) completed =
      let first = discover_seed seed completed in
      let later = discover_seeds rest first.1 in (first.0 ++ later.0, later.1)

-- The active peers that are no seeds, up to 128 of them.
unfoldable pub known_peers : ℕ → List Peer → List Endpoint
known_peers room [] = []
known_peers room (peer ∷ rest) =
    let skipped = known_peers room rest in
    let taken = known_peers (room - 1) rest in
    if peer.active && (not peer.is_seed && ltb 0 room)
    then record { addr = peer.addr; port = peer.port; node_id = peer.node_id } ∷ taken
    else skipped

unfoldable pub greet_known : Self → List Endpoint → List Discovery
greet_known self [] = []
greet_known self (e ∷ es) =
    let later = greet_known self es in
    if endpoint_is_self self e.addr e.port e.node_id then later else greets e ∷ later

unfoldable pub rediscover_from_known_peers : Self → List Peer → List Discovery
rediscover_from_known_peers self peers = greet_known self (known_peers 128 peers)

-- The seeds in a buffer of 2048 bytes.
unfoldable pub seeds_copy : Bytes → Bytes
seeds_copy seeds = take 2047 seeds

-- One round of discovery: the steps, and bootstrap_completed behind them. The table of peers is the one
-- behind the steps for the seeds.
unfoldable pub discover_once :
    (Bytes → Option ℕ)
    → (Endpoint → Option (List Endpoint))
    → (Endpoint → Bool)
    → Self
    → Bytes
    → List Peer
    → Bool
    → List Discovery × Bool
discover_once strtol hello snapshot self seeds peers completed =
    let found =
      discover_seeds hello snapshot (wanted_seeds strtol self (tokens [] (seeds_copy seeds)))
        completed in
    if length seeds == 0
    then (rediscover_from_known_peers self peers, completed)
    else (found.0 ++ rediscover_from_known_peers self peers, found.1)
