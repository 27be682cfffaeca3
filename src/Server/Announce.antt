-- ===== src/Server/Announce.antt =====
-- enqueue_broadcast of dmmr_server.c: what is put in the queue of commands for an entry.
use http_dmmr_nginx.Base.{
  ℕ, ◌≡◌, ◌≤◌, refl, true, not, ◌&&◌, List, [], ◌∷◌, ◌++◌, none, some, arith, Bytes, length, ltb,
  if◌then◌else◌, take, drop, min, take_prefix, drop_prefix, take-length,
}
use http_dmmr_nginx.Config.{max_key_len, max_value_len}
use http_dmmr_nginx.Db.Codec.{Entry}
use http_dmmr_nginx.Db.Converge.{pointer}
use http_dmmr_nginx.Db.Ops.{bytes_at, is_null}
use http_dmmr_nginx.Db.Views.{IsKey}
use http_dmmr_nginx.Server.Request.{Env, Cmd, flag_none, flag_tombstone, enqueue_broadcast}

-- The command that announces an entry to the peers.
abbrev pub announce : Bytes → Entry → Cmd
announce key e = record {
  ts = e.timestamp;
  node_id = e.node_id;
  expire_at = e.expire_at;
  flags = if e.tombstone then flag_tombstone else flag_none;
  key = key;
  key_len = length key;
  value = pointer e.value;
  value_len = length e.value;
}

-- The value's pointer, behind the key in the payload.
pub pointer_behind :
    (key v : Bytes)
    → (if ltb 0 (length v) then some (drop (length key) (key ++ v)) else none) ≡ pointer v
pointer_behind key [] = refl
pointer_behind key (x ∷ xs) =
    let full : ltb 0 (length (x ∷ xs)) ≡ true = ground arith in
    rw (full, drop_prefix (length key) key (x ∷ xs) refl) refl

module _ (env : Env) (key : Bytes) (k : IsKey key) (e : Entry)
    (fits : length e.value ≤ max_value_len) (slot : env.cmd_slot ≡ true)
    (room : (n : ℕ) → env.malloc n ≡ true) where
  pub enqueue_broadcast-announce :
      (tail : Bytes) (queue : List Cmd)
      → enqueue_broadcast env
          (key ++ tail)
          (length key)
          (pointer e.value)
          (length e.value)
          e.timestamp
          e.node_id
          e.expire_at
          (if e.tombstone then flag_tombstone else flag_none)
          queue
        ≡ queue ++ announce key e ∷ []
  unfolding enqueue_broadcast
  enqueue_broadcast-announce tail queue =
      let klen : min (length key) max_key_len ≡ length key = omega (arith, k.1) in
      let whole : take (length key) (key ++ tail) ≡ key = take_prefix (length key) key tail refl in
      rw (klen, whole, slot) (valued e.value fits)
    where
      valued :
          (v : Bytes)
          → length v ≤ max_value_len
          → (let made : Cmd = record {
            ts = e.timestamp;
            node_id = e.node_id;
            expire_at = e.expire_at;
            flags = if e.tombstone then flag_tombstone else flag_none;
            key = key;
            key_len = length key;
            value = none;
            value_len = 0;
          } in
              if not (is_null (pointer v)) && ltb 0 (length v)
              then (if env.malloc (min (length v) max_value_len)
                  then queue
                    ++ record made {
                      value = some (take (min (length v) max_value_len) (bytes_at (pointer v)));
                      value_len = min (length v) max_value_len;
                    }
                      ∷ []
                  else queue)
              else queue ++ made ∷ [])
            ≡ queue
              ++ (record {
                ts = e.timestamp;
                node_id = e.node_id;
                expire_at = e.expire_at;
                flags = if e.tombstone then flag_tombstone else flag_none;
                key = key;
                key_len = length key;
                value = pointer v;
                value_len = length v;
              })
                ∷ []
      valued [] l = refl
      valued (x ∷ xs) l =
          let full : ltb 0 (length (x ∷ xs)) ≡ true = ground arith in
          let vlen : min (length (x ∷ xs)) max_value_len ≡ length (x ∷ xs) = omega arith in
          rw (full, vlen, room (length (x ∷ xs)), take-length (x ∷ xs)) refl
