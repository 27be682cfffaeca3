-- ===== src/Cluster/Session.antt =====
-- handle_cluster_connection of dmmr_cluster.c: which frames of a connection a node acts on. A frame
-- carries the time at which it is handled and whether an answer to it can be sent.
use http_dmmr_nginx.Base.{
  ℕ, ◌≡◌, ◌+◌, ◌%◌, ◌^◌, ◌<◌, refl, Bool, true, false, not, ◌&&◌, List, [], ◌∷◌, arith, All,
  if◌then◌else◌, ltb, leb, ◌==◌, Bool-cases, ==_iff, inl, inr, ◌⊎◌,
}
use http_dmmr_nginx.Config.{auth_ttl_micros}
use http_dmmr_nginx.Config.Op

pub record Frame : Type 0 where
  pub opcode : ℕ
  pub cluster_id : ℕ
  pub node_id : ℕ
  pub key_len : ℕ
  pub value_len : ℕ
  pub at : ℕ
  pub sendable : Bool

-- What a node does about a frame.
pub data Action : Type 0 where
  say_hello : Action
  challenge : Action
  send_snapshot : Frame → Action
  apply_sync : Frame → Action
  skip : Action

-- cluster_name, as far as the session asks: whether it is set, and its FNV-1a hash.
pub record ClusterConf : Type 0 where
  pub has_name : Bool
  pub name_hash : ℕ

-- authenticate_cluster_frame and check_cluster_id on a frame's cluster_id, as the test for 0.
unfoldable pub authenticate_cluster_frame : ClusterConf → ℕ → Bool
authenticate_cluster_frame conf cluster_id =
    if not conf.has_name
    then true
    else if cluster_id == 0
    then false
    else cluster_id == conf.name_hash

-- The switch on the opcode.
unfoldable pub dispatch : Frame → Action
dispatch f =
    if f.opcode == Op.cluster_sync_request
    then (if not (f.node_id == 0) && ((f.key_len == 0) && (f.value_len == 0))
        then send_snapshot f
        else skip)
    else if f.opcode == Op.sync
    then apply_sync f
    else skip

-- The loop once the session is authenticated, or without a secret. The flag says whether
-- cluster_secret is set.
unfoldable pub session : ClusterConf → Bool → ℕ → List Frame → List Action
session conf has_secret auth_expire_at [] = []
session conf has_secret auth_expire_at (f ∷ rest) =
    let later = session conf has_secret auth_expire_at rest in
    if has_secret && (f.opcode == Op.cluster_hello)
    then say_hello ∷ []
    else if has_secret && leb auth_expire_at f.at
    then []
    else if not (authenticate_cluster_frame conf f.cluster_id)
    then []
    else dispatch f ∷ later

-- From the wait for AUTH_OK on.
unfoldable pub await_ok : ClusterConf → ℕ → List Frame → List Action
await_ok conf expire_at [] = challenge ∷ []
await_ok conf expire_at (g ∷ rest) =
    if not (g.opcode == Op.auth_ok)
    then challenge ∷ []
    else challenge ∷ session conf true expire_at rest

-- AUTH_RESPONSE is sent or not.
unfoldable pub reply : ClusterConf → Bool → ℕ → List Frame → List Action
reply conf false expire_at rest = []
reply conf true expire_at rest = await_ok conf expire_at rest

unfoldable pub handle_cluster_connection : ClusterConf → Bool → List Frame → List Action
handle_cluster_connection conf has_secret [] = []
handle_cluster_connection conf has_secret (f ∷ rest) =
    if not has_secret
    then session conf false 0 (f ∷ rest)
    else if f.opcode == Op.cluster_hello
    then say_hello ∷ []
    else if not (f.opcode == Op.auth_request)
    then []
    else if ltb f.value_len 8
    then []
    else reply conf f.sendable ((f.at + auth_ttl_micros) % 2 ^ 64) rest

-- An action that reads or writes the database is for a frame before a time, of the right cluster.
abbrev pub IsTimely : ClusterConf → ℕ → Action → Type 0
IsTimely conf limit (send_snapshot f) =
    (f.at < limit) × (authenticate_cluster_frame conf f.cluster_id ≡ true)
IsTimely conf limit (apply_sync f) =
    (f.at < limit) × (authenticate_cluster_frame conf f.cluster_id ≡ true)
IsTimely conf limit _ = Unit {0}

dispatch-IsTimely :
    (conf : ClusterConf) (limit : ℕ) (f : Frame)
    → f.at < limit
    → authenticate_cluster_frame conf f.cluster_id ≡ true
    → IsTimely conf limit (dispatch f)
unfolding dispatch
dispatch-IsTimely conf limit f t a = elim (Bool-cases (f.opcode == Op.cluster_sync_request)) [
  | inl request ↦
      elim (Bool-cases (not (f.node_id == 0) && ((f.key_len == 0) && (f.value_len == 0)))) [
        | inl well ↦ rw (request, well) (t, a)
        | inr ill ↦ rw (request, ill) tt
      ]
  | inr other ↦ elim (Bool-cases (f.opcode == Op.sync)) [
    | inl sync ↦ rw (other, sync) (t, a)
    | inr none_of_them ↦ rw (other, none_of_them) tt
  ]
]

session-IsTimely :
    (conf : ClusterConf) (limit : ℕ) (fs : List Frame)
    → All (IsTimely conf limit) (session conf true limit fs)
unfolding session authenticate_cluster_frame
session-IsTimely conf limit [] = tt
session-IsTimely conf limit (f ∷ rest) = elim (Bool-cases (f.opcode == Op.cluster_hello)) [
  | inl hello ↦ rw hello (tt, tt)
  | inr other ↦ elim (Bool-cases (leb limit f.at)) [
    | inl late ↦ rw (other, late) tt
    | inr timely ↦ elim (Bool-cases (authenticate_cluster_frame conf f.cluster_id)) [
      | inr stranger ↦ rw (other, timely, stranger) tt
      | inl ours ↦
          rw (other, timely, ours)
            (dispatch-IsTimely conf limit f (ground arith) ours, session-IsTimely conf limit rest)
    ]
  ]
]

-- Actions that leave the database alone.
abbrev pub IsHarmless : Action → Type 0
IsHarmless (send_snapshot f) = ⊥
IsHarmless (apply_sync f) = ⊥
IsHarmless _ = Unit {0}

-- With a secret, a connection either applies no record and sends no snapshot, or begins with
-- AUTH_REQUEST and AUTH_OK, and then every frame whose record is applied and every frame that is answered
-- with a snapshot comes before the session expires and carries the identity of the cluster. A HELLO is
-- held to neither.
pub handle_cluster_connection-IsTimely :
    (conf : ClusterConf) (fs : List Frame)
    → All IsHarmless (handle_cluster_connection conf true fs)
      ⊎ ((f : Frame) × (g : Frame) × (rest : List Frame) × (fs ≡ f ∷ (g ∷ rest))
          × (f.opcode ≡ Op.auth_request)
          × (g.opcode ≡ Op.auth_ok)
          × All
              (IsTimely conf ((f.at + auth_ttl_micros) % 2 ^ 64))
              (handle_cluster_connection conf true fs))
unfolding handle_cluster_connection reply await_ok
handle_cluster_connection-IsTimely conf [] = inl tt
handle_cluster_connection-IsTimely conf (f ∷ rest) =
    elim (Bool-cases (f.opcode == Op.cluster_hello)) [
      | inl hello ↦ rw hello (inl (tt, tt))
      | inr other ↦ elim (Bool-cases (f.opcode == Op.auth_request)) [
        | inr unknown ↦ rw (other, unknown) (inl tt)
        | inl request ↦ elim (Bool-cases (ltb f.value_len 8)) [
          | inl short ↦ rw (other, request, short) (inl tt)
          | inr long ↦
              rw (other, request, long)
                (answer ((==_iff f.opcode Op.auth_request).0 request) f.sendable rest)
        ]
      ]
    ]
  where
    answer :
        f.opcode ≡ Op.auth_request
        → (sent : Bool) (gs : List Frame)
        → All IsHarmless (reply conf sent ((f.at + auth_ttl_micros) % 2 ^ 64) gs)
          ⊎ ((f' : Frame) × (g : Frame) × (rest' : List Frame) × (f ∷ gs ≡ f' ∷ (g ∷ rest'))
              × (f'.opcode ≡ Op.auth_request)
              × (g.opcode ≡ Op.auth_ok)
              × All
                  (IsTimely conf ((f'.at + auth_ttl_micros) % 2 ^ 64))
                  (reply conf sent ((f.at + auth_ttl_micros) % 2 ^ 64) gs))
    answer asked false gs = inl tt
    answer asked true [] = inl (tt, tt)
    answer asked true (g ∷ gs) = elim (Bool-cases (g.opcode == Op.auth_ok)) [
      | inr refused ↦ rw refused (inl (tt, tt))
      | inl granted ↦ rw granted (
          inr (
            f,
            g,
            gs,
            refl,
            asked,
            (==_iff g.opcode Op.auth_ok).0 granted,
            (tt, session-IsTimely conf ((f.at + auth_ttl_micros) % 2 ^ 64) gs),
          ))
    ]
