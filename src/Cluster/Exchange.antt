-- ===== src/Cluster/Exchange.antt =====
-- The peer list that send_peer_list writes, read by parse_peer_list of another node.
use http_dmmr_nginx.Base.{
  ℕ, zero, suc, ◌≡◌, ◌≢◌, ◌+◌, ◌*◌, ◌%◌, ◌^◌, ◌<◌, ◌≤◌, refl, sym, ap, ◌∙◌, Bool, true, false, List,
  [], ◌∷◌, ◌++◌, some, arith, All, Bytes, length, ltb, ◌==◌, Bool-cases, inl, inr, if◌then◌else◌,
  get_or, take, drop, of_be, be, length-be, of_be-be, take_prefix, drop_prefix, drop_past,
  get_or-drop, append_assoc, append-nil, length-append, take-length,
}
use http_dmmr_nginx.Config.{max_value_len}
use http_dmmr_nginx.Cluster.Peers.{Self, Endpoint, Peer, endpoint_is_self, snapshot_peer_endpoints}
use http_dmmr_nginx.Cluster.PeerList.{
  Parsed, visit, c_string, read_endpoint, write_endpoint, write_endpoints, total_len, parse_loop,
  parse_peer_list, send_peer_list,
}

-- A C string of 1 to 255 bytes, a 16-bit port and a 64-bit node id.
pub record IsEndpoint (e : Endpoint) : Type 0 where
  pub node_id_fits : e.node_id < 2 ^ 64
  pub port_fits : e.port < 2 ^ 16
  pub addr_fits : (0 < length e.addr) × (length e.addr ≤ 255)
  pub addr_string : All (λ x. x ≢ 0) e.addr

pub c_string_lem : (xs : Bytes) → All (λ x. x ≢ 0) xs → c_string xs ≡ xs
unfolding c_string
c_string_lem [] h = refl
c_string_lem (x ∷ xs) h = ground (arith, c_string_lem xs h.1, h.0)

module _ (e : Endpoint) (v : IsEndpoint e) (ys : Bytes) where
  laid_out :
      write_endpoint e ++ ys ≡ be 8 e.node_id ++ (be 2 e.port ++ (length e.addr ∷ (e.addr ++ ys)))
  unfolding write_endpoint
  laid_out =
      let len : length e.addr % 256 ≡ length e.addr = ground (arith, v.addr_fits) in
      let node : e.node_id % 2 ^ 64 ≡ e.node_id = ground (arith, v.node_id_fits) in
      let port : e.port % 2 ^ 16 ≡ e.port = ground (arith, v.port_fits) in
      rw (len, node, port, take-length e.addr)
        (append_assoc (be 8 e.node_id) (be 2 e.port ++ (length e.addr ∷ e.addr)) ys
          ∙ ap (λ xs. be 8 e.node_id ++ xs)
              (append_assoc (be 2 e.port) (length e.addr ∷ e.addr) ys))

  drop_8 : drop 8 (write_endpoint e ++ ys) ≡ be 2 e.port ++ (length e.addr ∷ (e.addr ++ ys))
  drop_8 =
      ap (drop 8) laid_out
      ∙ drop_prefix 8 (be 8 e.node_id) (be 2 e.port ++ (length e.addr ∷ (e.addr ++ ys)))
          (length-be 8 e.node_id)

  drop_10 : drop 10 (write_endpoint e ++ ys) ≡ length e.addr ∷ (e.addr ++ ys)
  drop_10 =
      ap (drop 10) laid_out
      ∙ (drop_past 8 2 10 (be 8 e.node_id) (be 2 e.port ++ (length e.addr ∷ (e.addr ++ ys)))
            (omega arith) (length-be 8 e.node_id)
          ∙ drop_prefix 2 (be 2 e.port) (length e.addr ∷ (e.addr ++ ys)) (length-be 2 e.port))

  drop_11 : drop 11 (write_endpoint e ++ ys) ≡ e.addr ++ ys
  drop_11 =
      ap (drop 11) laid_out
      ∙ (drop_past 8 3 11 (be 8 e.node_id) (be 2 e.port ++ (length e.addr ∷ (e.addr ++ ys)))
            (omega arith) (length-be 8 e.node_id)
          ∙ drop_past 2 1 3 (be 2 e.port) (length e.addr ∷ (e.addr ++ ys)) (omega arith)
              (length-be 2 e.port))

  at_10 : get_or (write_endpoint e ++ ys) 10 0 ≡ length e.addr
  at_10 = get_or-drop (write_endpoint e ++ ys) 10 0 ∙ ap (λ xs. get_or xs 0 0) drop_10

  length-laid_out : length (write_endpoint e ++ ys) ≡ 11 + (length e.addr + length ys)
  length-laid_out =
      ap length laid_out
      ∙ omega (
        arith,
        length-append (be 8 e.node_id) (be 2 e.port ++ (length e.addr ∷ (e.addr ++ ys))),
        length-append (be 2 e.port) (length e.addr ∷ (e.addr ++ ys)),
        length-append e.addr ys,
        length-be 8 e.node_id,
        length-be 2 e.port,
      )

  read_endpoint-write : read_endpoint (write_endpoint e ++ ys) ≡ e
  unfolding read_endpoint
  read_endpoint-write =
      let addr : c_string (take (length e.addr) (e.addr ++ ys)) ≡ e.addr =
        ap c_string (take_prefix (length e.addr) e.addr ys refl)
        ∙ c_string_lem e.addr v.addr_string in
      let node : of_be (take 8 (write_endpoint e ++ ys)) ≡ e.node_id =
        ap (λ xs. of_be (take 8 xs)) laid_out
        ∙ (ap of_be (
              take_prefix 8 (be 8 e.node_id) (be 2 e.port ++ (length e.addr ∷ (e.addr ++ ys)))
                (length-be 8 e.node_id))
            ∙ of_be-be 8 e.node_id (ground (arith, v.node_id_fits))) in
      let port : of_be (take 2 (drop 8 (write_endpoint e ++ ys))) ≡ e.port =
        ap (λ xs. of_be (take 2 xs)) drop_8
        ∙ (ap of_be
              (take_prefix 2 (be 2 e.port) (length e.addr ∷ (e.addr ++ ys)) (length-be 2 e.port))
            ∙ of_be-be 2 e.port (ground (arith, v.port_fits))) in
      rw (at_10, drop_11, addr, node, port) refl

  parse_step :
      (self : Self) (alloc : ℕ → Bool) (now n : ℕ) (st : Parsed)
      → parse_loop self alloc now (suc n) (write_endpoint e ++ ys) st
        ≡ parse_loop self alloc now n ys (visit self alloc now e st)
  unfolding parse_loop
  parse_step self alloc now n st =
      let long : ltb (length (write_endpoint e ++ ys)) 11 ≡ false =
        ground (arith, length-laid_out) in
      let some_of_it : (length e.addr == 0) ≡ false = ground (arith, v.addr_fits) in
      let whole : ltb (length (e.addr ++ ys)) (length e.addr) ≡ false =
        ground (arith, length-append e.addr ys) in
      let behind : drop (length e.addr) (e.addr ++ ys) ≡ ys =
        drop_prefix (length e.addr) e.addr ys refl in
      rw (long, at_10, drop_11, some_of_it, whole, behind, read_endpoint-write) refl

-- The endpoints of a list that are not the reader, and the reader's table with all of them added.
abbrev pub visit_all : Self → (ℕ → Bool) → ℕ → List Endpoint → Parsed → Parsed
visit_all self alloc now [] st = st
visit_all self alloc now (e ∷ rest) st = visit_all self alloc now rest (visit self alloc now e st)

parse_loop_lem :
    (self : Self) (alloc : ℕ → Bool) (now : ℕ) (es : List Endpoint) (st : Parsed)
    → All IsEndpoint es
    → parse_loop self alloc now (length es) (write_endpoints es) st
      ≡ (true, [], visit_all self alloc now es st)
unfolding write_endpoints
parse_loop_lem self alloc now [] st h = unfold parse_loop in refl
parse_loop_lem self alloc now (e ∷ rest) st h =
    parse_step e h.0 (write_endpoints rest) self alloc now (length rest) st
    ∙ parse_loop_lem self alloc now rest (visit self alloc now e st) h.1

abbrev pub others : Self → List Endpoint → List Endpoint
others self [] = []
others self (e ∷ rest) =
    if endpoint_is_self self e.addr e.port e.node_id then others self rest else e ∷ others self rest

items-visit_all :
    (self : Self) (alloc : ℕ → Bool) (now : ℕ) (es : List Endpoint) (st : Parsed)
    → length st.items + length es ≤ 128
    → (visit_all self alloc now es st).items ≡ st.items ++ others self es
unfolding visit
items-visit_all self alloc now [] st h = sym (append-nil st.items)
items-visit_all self alloc now (e ∷ rest) st h =
    elim (Bool-cases (endpoint_is_self self e.addr e.port e.node_id)) [
      | inl me ↦
          let kept : (visit self alloc now e st).items ≡ st.items = ground (arith, me) in
          rw me (
            items-visit_all self alloc now rest (visit self alloc now e st)
              (ground (arith, h, ap length kept))
            ∙ ap (λ xs. xs ++ others self rest) kept)
      | inr other ↦
          let added : (visit self alloc now e st).items ≡ st.items ++ (e ∷ []) =
            ground (arith, other, h) in
          rw other (
            items-visit_all self alloc now rest (visit self alloc now e st)
              (ground (arith, h, ap length added, length-append st.items (e ∷ [])))
            ∙ (ap (λ xs. xs ++ others self rest) added
                ∙ append_assoc st.items (e ∷ []) (others self rest)))
    ]

length-snapshot : (n : ℕ) (table : List Peer) → length (snapshot_peer_endpoints n table) ≤ n
unfolding snapshot_peer_endpoints
length-snapshot n [] = omega arith
length-snapshot zero (p ∷ rest) = omega arith
length-snapshot (suc n) (p ∷ rest) = omega (arith, length-snapshot n rest)

total_len_bound : (es : List Endpoint) → All IsEndpoint es → total_len es ≤ 2 + 266 * length es
unfolding total_len
total_len_bound [] h = omega arith
total_len_bound (e ∷ rest) h = ground (arith, total_len_bound rest h.1, h.0.addr_fits)

abbrev pub payload_of : List Endpoint → Bytes
payload_of es = be 2 (length es) ++ write_endpoints es

-- The first 128 peers of a table with valid endpoints, when malloc gives room for the payload: the
-- sender has a payload for them, and any node that parses it accepts it whole and lists exactly
-- those of them that are not itself, in order.
pub parse_peer_list-send :
    (self : Self) (alloc alloc' : ℕ → Bool) (now : ℕ) (table : List Peer) (st : Parsed)
    → All IsEndpoint (snapshot_peer_endpoints 128 table)
    → alloc (total_len (snapshot_peer_endpoints 128 table)) ≡ true
    → let es = snapshot_peer_endpoints 128 table in
      let parsed = parse_peer_list self alloc' now (send_peer_list alloc table) st in
      (parsed.0 ≡ true) × (parsed.1.items ≡ others self es)
unfolding parse_peer_list
parse_peer_list-send self alloc alloc' now table st h room =
    let es = snapshot_peer_endpoints 128 table in
    let few = length-snapshot 128 table in
    let start : Parsed = record st { items = [] } in
    let sent : send_peer_list alloc table ≡ some (payload_of es) = sending in
    let count : of_be (take 2 (payload_of es)) ≡ length es =
      ap of_be (take_prefix 2 (be 2 (length es)) (write_endpoints es) (length-be 2 (length es)))
      ∙ of_be-be 2 (length es) (ground (arith, few)) in
    let body : drop 2 (payload_of es) ≡ write_endpoints es =
      drop_prefix 2 (be 2 (length es)) (write_endpoints es) (length-be 2 (length es)) in
    let long : ltb (length (payload_of es)) 2 ≡ false =
      ground
        (arith, length-append (be 2 (length es)) (write_endpoints es), length-be 2 (length es)) in
    rw (sent, long, count, body, parse_loop_lem self alloc' now es start h)
      (refl, items-visit_all self alloc' now es start (omega (arith, few)))
  where
    sending : send_peer_list alloc table ≡ some (payload_of (snapshot_peer_endpoints 128 table))
    sending =
        let es = snapshot_peer_endpoints 128 table in
        let few = length-snapshot 128 table in
        let short : ltb max_value_len (total_len es) ≡ false =
          ground (arith, few, total_len_bound es h) in
        let count : length es % 2 ^ 16 ≡ length es = ground (arith, few) in
        unfold send_peer_list in rw (short, room, count) refl
