-- ===== src/Db/Converge.antt =====
-- Replicas that receive the same writes, in any order and any number of times: the OP_SYNC handler
-- calls db_apply_record once for each frame, and its result does not depend on their order.
use http_dmmr_nginx.Base.{
  ℕ, ◌≡◌, refl, sym, ap, ◌∙◌, Bool, true, false, List, [], ◌∷◌, Option, none, some, if◌then◌else◌,
  Bytes, length, bytes_eq, bytes_eq_iff, All, Bool-cases, inl, inr, subst,
}
use http_dmmr_nginx.Db.Codec.{Entry, IsEntry, encode}
use http_dmmr_nginx.Db.Lww.{Agree, merge, merge_comm}
use http_dmmr_nginx.Db.Ops.{BerkeleyDb, bytes_at, db_apply_record}
use http_dmmr_nginx.Db.Views.{IsKey, IsSound, view, view_open, holds, apply_entry, plenty}
use http_dmmr_nginx.Db.Refine.{db_apply_record-merge}
use http_dmmr_nginx.Db.Sound.{AllSound, db_apply_record-AllSound}
use mathlib.Core.Logic.{∥∥₁_elim}
use mathlib.Core.List.{Perm, Permᴰ}

entries_set : IsSet (Option Entry)
entries_set = hlevel

-- One write as it arrives.
pub record Delivery : Type 0 where
  pub key : Bytes
  pub entry : Entry

pub record IsDelivery (d : Delivery) : Type 0 where
  pub key_fits : IsKey d.key
  pub entry_fits : IsEntry d.entry

-- The pointer that the handlers pass: NULL for an empty value.
abbrev pub pointer : Bytes → Option Bytes
pointer [] = none
pointer (b ∷ bs) = some (b ∷ bs)

pub bytes_at-pointer : (bs : Bytes) → bytes_at (pointer bs) ≡ bs
bytes_at-pointer [] = refl
bytes_at-pointer (b ∷ bs) = refl

-- The write is the one that its key, timestamp and node name.
abbrev pub IsFrom : (Bytes → ℕ → ℕ → Entry) → Delivery → Type 0
IsFrom origin d = d.entry ≡ origin d.key d.entry.timestamp d.entry.node_id

module _ (j : Bytes) where
  -- What one delivery does to the entry under j.
  deliver : Option Entry → Delivery → Option Entry
  deliver v d = if bytes_eq d.key j then merge v d.entry else v

  merge_all : Option Entry → List Delivery → Option Entry
  merge_all v [] = v
  merge_all v (d ∷ ds) = merge_all (deliver v d) ds

  module _ (origin : Bytes → ℕ → ℕ → Entry) where
    deliver_comm :
        (v : Option Entry) (a b : Delivery)
        → IsFrom origin a
        → IsFrom origin b
        → deliver (deliver v a) b ≡ deliver (deliver v b) a
    unfolding deliver
    deliver_comm v a b ha hb = elim (Bool-cases (bytes_eq a.key j)) [
      | inr other ↦ rw other
      | inl here ↦ elim (Bool-cases (bytes_eq b.key j)) [
        | inr other ↦ rw (here, other)
        | inl too ↦
            rw (here, too)
              (merge_comm v a.entry b.entry
                (same ((bytes_eq_iff a.key j).0 here) ((bytes_eq_iff b.key j).0 too)))
      ]
    ]
      where
        same : a.key ≡ j → b.key ≡ j → Agree a.entry b.entry
        same ka kb t n = cc

    AllFrom-perm :
        {xs ys : List Delivery} → Permᴰ xs ys → All (IsFrom origin) xs → All (IsFrom origin) ys
    AllFrom-perm Permᴰ.nil h = h
    AllFrom-perm (Permᴰ.cons e p) h = (subst (IsFrom origin) e h.0, AllFrom-perm p h.1)
    AllFrom-perm (Permᴰ.swap e f) h =
        (subst (IsFrom origin) f h.1.0, (subst (IsFrom origin) e h.0, h.1.1))
    AllFrom-perm (Permᴰ.trans p q) h = AllFrom-perm q (AllFrom-perm p h)

    merge_all_perm :
        {xs ys : List Delivery}
        → Permᴰ xs ys
        → All (IsFrom origin) xs
        → (v : Option Entry) → merge_all v xs ≡ merge_all v ys
    unfolding merge_all
    merge_all_perm Permᴰ.nil h v = refl
    merge_all_perm (Permᴰ.cons {b = b} {l₁ = l} e p) h v =
        ap (λ x. merge_all (deliver v x) l) e ∙ merge_all_perm p h.1 (deliver v b)
    merge_all_perm (Permᴰ.swap {a = a} {b = b} {l = l} e f) h v =
        ap (λ w. merge_all w l) (deliver_comm v a b h.0 h.1.0) ∙ rw (e, f)
    merge_all_perm (Permᴰ.trans p q) h v =
        merge_all_perm p h v ∙ merge_all_perm q (AllFrom-perm p h) v

-- The OP_SYNC handlers, one call for each write, on a handle whose calloc and DB->put succeed.
module _ (bdb : BerkeleyDb) where
  open bdb use {State, get, put}

  unfoldable pub replay : List Delivery → Option State → Option State
  replay [] dbp = dbp
  replay (d ∷ ds) dbp =
      replay ds
        (db_apply_record bdb plenty dbp (some d.key) (length d.key) d.entry.timestamp
          d.entry.node_id d.entry.expire_at d.entry.tombstone (pointer d.entry.value)
          (length d.entry.value)).1

  module _ (stores : (s : State) (k d : Bytes) → (t : State) × (put s k d ≡ some t)) where
    one :
        (d : Delivery) (s : State) (j : Bytes)
        → IsDelivery d
        → IsSound bdb s d.key
        → holds bdb (apply_entry bdb plenty s d.key d.entry (pointer d.entry.value)).1 j
          ≡ deliver j (view bdb s j) d
    unfolding deliver
    one d s j fits sound =
        (db_apply_record-merge bdb plenty s d.key j d.entry (pointer d.entry.value) fits.key_fits
          fits.entry_fits (bytes_at-pointer d.entry.value)
          (stores s d.key (encode d.entry (pointer d.entry.value))).0 sound refl
          (stores s d.key (encode d.entry (pointer d.entry.value))).1).1
        ∙ regroup (bytes_eq d.key j) (bytes_eq_iff d.key j).0
      where
        regroup :
            (b : Bool)
            → (b ≡ true → d.key ≡ j)
            → (if b then merge (view bdb s d.key) d.entry else view bdb s j)
              ≡ (if b then merge (view bdb s j) d.entry else view bdb s j)
        regroup true h = ap (λ k. merge (view bdb s k) d.entry) (h refl)
        regroup false h = refl

    replay-merge_all :
        (ds : List Delivery) (dbp : Option State) (j : Bytes)
        → All IsDelivery ds
        → AllSound bdb dbp
        → holds bdb (replay ds dbp) j ≡ merge_all j (holds bdb dbp j) ds
    unfolding replay merge_all holds view_open
    replay-merge_all ds none j fits sound = absurd sound
    replay-merge_all [] (some s) j fits sound = refl
    replay-merge_all (d ∷ ds) (some s) j fits sound =
        replay-merge_all ds (apply_entry bdb plenty s d.key d.entry (pointer d.entry.value)).1 j
          fits.1
          (db_apply_record-AllSound bdb s d.key d.entry (pointer d.entry.value) fits.0.entry_fits
            (bytes_at-pointer d.entry.value) sound plenty fits.0.key_fits)
        ∙ ap (λ w. merge_all j w ds) (one d s j fits.0 (sound d.key))

    -- Two replicas that start with the same entry under j, each with valid records and a store that
    -- serves every write, and that apply the same writes in two orders, hold the same entry under j
    -- at the end, if a key, a timestamp and a node name at most one write.
    pub replay_converges :
        (xs ys : List Delivery) (s t : State) (j : Bytes) (origin : Bytes → ℕ → ℕ → Entry)
        → Perm xs ys
        → All IsDelivery xs
        → All IsDelivery ys
        → All (IsFrom origin) xs
        → AllSound bdb (some s)
        → AllSound bdb (some t)
        → view bdb s j ≡ view bdb t j
        → holds bdb (replay xs (some s)) j ≡ holds bdb (replay ys (some t)) j
    unfolding holds view_open
    replay_converges xs ys s t j origin p fx fy from ss st same =
        replay-merge_all xs (some s) j fx ss
        ∙ (∥∥₁_elim p (entries_set _ _) (λ q. merge_all_perm j origin q from (holds bdb (some s) j))
            ∙ (ap (λ w. merge_all j w ys) same ∙ sym (replay-merge_all ys (some t) j fy st)))
