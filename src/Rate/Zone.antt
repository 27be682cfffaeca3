-- ===== src/Rate/Zone.antt =====
-- The shared-memory zone of ngx_http_dmmr_rate_limit.c and the request handler on it. The handler
-- holds the zone's mutex from the lookup on, so a request is one function on the zone. An entry is an
-- address that the tree and the LRU queue both hold; its fields stand in `heap`. The slab allocator,
-- the recolouring of nginx's rbtree and its deletion, and CRC-32 are parameters.
use http_dmmr_nginx.Base.{
  ℕ, ◌≡◌, ◌+◌, ◌-◌, ◌%◌, ◌^◌, ◌<◌, Bool, true, false, not, ◌&&◌, ◌||◌, List, [], ◌∷◌, ◌++◌, Option,
  none, some, if◌then◌else◌, Bytes, length, take, ltb, leb, ◌==◌,
}
use http_dmmr_nginx.Rate.Order.{Ident}
use http_dmmr_nginx.Rate.Tree.{Tree, inorder, lookup, rbtree_insert}
use http_dmmr_nginx.Rate.Sorted.{remove}

-- ngx_http_dmmr_rate_node_t, its links left aside
pub record RateNode : Type 0 where
  pub hash : ℕ
  pub window_start : ℕ
  pub count : ℕ
  pub key_len : ℕ
  pub key : Bytes

abbrev pub ident_of : RateNode → Ident
ident_of n = record { hash = n.hash; key = take n.key_len n.key }

-- What nginx gives, with the documented behaviour that the handler relies on: a fresh block is not
-- in use, and insertion and deletion keep the order of the other nodes.
pub record Nginx : Type 1 where
  pub Slab : Type 0
  pub slab_alloc : Slab → Option (ℕ × Slab)
  pub slab_free : Slab → ℕ → Slab
  pub in_use : Slab → ℕ → Bool
  pub rebalance : Tree → Tree
  pub rbtree_delete : Tree → ℕ → Tree
  pub crc32 : Bytes → ℕ
  pub sockaddr_strlen : ℕ
  pub alloc_fresh : (s t : Slab) (a : ℕ) → slab_alloc s ≡ some (a, t) → in_use s a ≡ false
  pub alloc_in_use :
      (s t : Slab) (a b : ℕ) → slab_alloc s ≡ some (a, t) → in_use t b ≡ ((a == b) || in_use s b)
  pub free_in_use : (s : Slab) (a b : ℕ) → in_use (slab_free s a) b ≡ (not (a == b) && in_use s b)
  pub inorder-rebalance : (t : Tree) → inorder (rebalance t) ≡ inorder t
  pub inorder-delete : (t : Tree) (a : ℕ) → inorder (rbtree_delete t a) ≡ remove a (inorder t)
  pub key_len_fits : sockaddr_strlen < 256

-- The location's ngx_http_dmmr_conf_t, as far as the handler reads it.
pub record RateConf : Type 0 where
  pub rate_limit : ℕ
  pub rate_window : ℕ

-- What the functions of the module return: the NGX_ and NGX_HTTP_ codes that it uses.
pub data Verdict : Type 0 where
  ok declined error unauthorized forbidden not_found too_many_requests internal_server_error
        service_unavailable :
      Verdict

-- ngx_msec_t and ngx_uint_t are 64 bits wide.
unfoldable pub elapsed : ℕ → ℕ → ℕ
elapsed now window_start = (now + 2 ^ 64 - window_start) % 2 ^ 64

-- What a request does to the entry of its client: whether it is limited, and the entry after it.
unfoldable pub charge : ℕ → ℕ → ℕ → RateNode → Bool × RateNode
charge rate_limit rate_window now entry =
    if ltb rate_window (elapsed now entry.window_start)
    then (false, record entry { window_start = now; count = 1 })
    else if leb rate_limit entry.count
    then (true, entry)
    else (false, record entry { count = (entry.count + 1) % 2 ^ 64 })

abbrev pub update : (ℕ → RateNode) → ℕ → RateNode → ℕ → RateNode
update heap a n b = if a == b then n else heap b

module _ (ngx : Nginx) where
  open ngx use {Slab, slab_alloc, slab_free, rebalance, rbtree_delete, crc32, sockaddr_strlen}

  -- ngx_http_dmmr_rate_shctx_t, with the entries and the slab pool
  pub record Zone : Type 0 where
    pub tree : Tree
    pub lru : List ℕ
    pub heap : ℕ → RateNode
    pub slab : Slab

  abbrev pub ident : Zone → ℕ → Ident
  ident sh a = ident_of (sh.heap a)

  -- Takes the head of the queue out of the zone.
  unfoldable pub drop_head : Zone → ℕ → List ℕ → Zone
  drop_head sh a rest = record sh {
    tree = rbtree_delete sh.tree a;
    lru = rest;
    slab = slab_free sh.slab a;
  }

  -- The loop of ngx_http_dmmr_rate_expire, on the queue that is left.
  unfoldable pub expire_loop : ℕ → ℕ → List ℕ → Zone → Zone
  expire_loop now window [] sh = sh
  expire_loop now window (a ∷ rest) sh =
      let later = expire_loop now window rest (drop_head sh a rest) in
      if leb (elapsed now (sh.heap a).window_start) window then sh else later

  unfoldable pub rate_expire : ℕ → ℕ → Zone → Zone
  rate_expire now window sh = expire_loop now window sh.lru sh

  -- From ngx_memzero on: the new entry is filled and linked into the tree and the queue.
  unfoldable pub admit : ℕ → Bytes → ℕ → Slab → Zone → Zone
  admit now client_key a slab sh =
      let entry : RateNode = record {
        hash = crc32 client_key;
        window_start = now;
        count = 1;
        key_len = length client_key % 256;
        key = client_key;
      } in
      let heap = update sh.heap a entry in
      record {
        tree = rebalance (rbtree_insert (λ b. ident_of (heap b)) sh.tree a);
        lru = sh.lru ++ (a ∷ []);
        heap = heap;
        slab = slab;
      }

  unfoldable pub admit_or_fail : ℕ → Bytes → Option (ℕ × Slab) → Zone → Verdict × Zone
  admit_or_fail now client_key none sh = (service_unavailable, sh)
  admit_or_fail now client_key (some (a, slab)) sh = (ok, admit now client_key a slab sh)

  -- The second allocation, after the oldest entry has made room.
  unfoldable pub admit_retry : ℕ → Bytes → Option (ℕ × Slab) → List ℕ → Zone → Verdict × Zone
  admit_retry now client_key (some (a, slab)) lru sh = (ok, admit now client_key a slab sh)
  admit_retry now client_key none [] sh = (service_unavailable, sh)
  admit_retry now client_key none (victim ∷ rest) sh =
      let sh' = drop_head sh victim rest in admit_or_fail now client_key (slab_alloc sh'.slab) sh'

  -- The branch for a client with an entry.
  unfoldable pub limit_known : ℕ → ℕ → ℕ → ℕ → Zone → Verdict × Zone
  limit_known rate_limit rate_window now a sh =
      let (limited, entry) = charge rate_limit rate_window now (sh.heap a) in
      (
        if limited then too_many_requests else ok,
        record sh { lru = remove a sh.lru ++ (a ∷ []); heap = update sh.heap a entry },
      )

  -- The branch for a client without one.
  unfoldable pub limit_new : ℕ → ℕ → Bytes → Zone → Verdict × Zone
  limit_new rate_window now client_key sh =
      let sh' = rate_expire now rate_window sh in
      admit_retry now client_key (slab_alloc sh'.slab) sh'.lru sh'

  unfoldable pub limit_found : ℕ → ℕ → ℕ → Bytes → Option ℕ → Zone → Verdict × Zone
  limit_found rate_limit rate_window now client_key (some a) sh =
      limit_known rate_limit rate_window now a sh
  limit_found rate_limit rate_window now client_key none sh =
      limit_new rate_window now client_key sh

  -- Between lock and unlock.
  unfoldable pub limit_locked : ℕ → ℕ → ℕ → Bytes → Zone → Verdict × Zone
  limit_locked rate_limit rate_window now client_key sh =
      limit_found rate_limit rate_window now client_key
        (lookup (ident sh) sh.tree (record { hash = crc32 client_key; key = client_key })) sh

  abbrev pub limit_of : Option RateConf → ℕ
  limit_of none = 100
  limit_of (some conf) = if ltb 0 conf.rate_limit then conf.rate_limit else 100

  abbrev pub window_of : Option RateConf → ℕ
  window_of none = 60000
  window_of (some conf) = if ltb 0 conf.rate_window then conf.rate_window else 60000

  unfoldable pub rate_limit : Option RateConf → Option Zone → Bytes → ℕ → Verdict × Option Zone
  rate_limit conf none client_key now = (internal_server_error, none)
  rate_limit conf (some sh) client_key now =
      if (length client_key == 0) || ltb sockaddr_strlen (length client_key)
      then (internal_server_error, some sh)
      else (let (verdict, sh') = limit_locked (limit_of conf) (window_of conf) now client_key sh in
          (verdict, some sh'))
