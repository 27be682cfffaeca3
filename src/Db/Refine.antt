-- ===== src/Db/Refine.antt =====
-- db_apply_record of dmmr_db.c against the last-writer-wins merge, with and without failures of
-- calloc and of DB->put.
use http_dmmr_nginx.Base.{
  ℕ, ◌+◌, ◌≡◌, refl, sym, ap, ◌∙◌, ◌⊎◌, Bool, true, Option, some, arith, if◌then◌else◌, Bool-cases,
  inl, inr, Bytes, length, bytes_eq, bytes_eq_iff, Option-cases,
}
use http_dmmr_nginx.Db.Codec.{Entry, IsEntry, decode, encode}
use http_dmmr_nginx.Db.Lww.{wins, merge, result_of}
use http_dmmr_nginx.Db.Ops.{BerkeleyDb, bytes_at}
use http_dmmr_nginx.Db.Record.{DbResult, applied, ignored, error, sizeof_cache_entry, incoming_wins}
use http_dmmr_nginx.Db.Views.{
  IsKey, IsSound, view, view_found, view_open, holds, answered, apply_entry, written, put_of,
  apply_entry-answered, put-holds,
}

module _ (bdb : BerkeleyDb) (alloc : ℕ → Bool) (s : bdb.State) (key j : Bytes) (e : Entry)
    (value : Option Bytes) (k : IsKey key) (v : IsEntry e) (at : bytes_at value ≡ e.value) where
  open bdb use {State, get, put}

  -- What the caller sees of a call: its result, and the entry under j afterwards.
  abbrev Sees : DbResult × Option State → DbResult → Option Entry → Type 0
  Sees r code entry = (r.0 ≡ code) × (holds bdb r.1 j ≡ entry)

  abbrev merged : Option Entry
  merged = if bytes_eq key j then merge (view bdb s key) e else view bdb s j

  merged_unchanged : merge (view bdb s key) e ≡ view bdb s key → merged ≡ view bdb s j
  merged_unchanged h = elim (Bool-cases (bytes_eq key j)) [
    | inl same ↦ rw (same, h) (ap (view bdb s) ((bytes_eq_iff key j).0 same))
    | inr other ↦ rw other
  ]

  written-Sees :
      (t : State)
      → alloc (sizeof_cache_entry + (if e.tombstone then 0 else length e.value)) ≡ true
      → put s key (encode e value) ≡ some t
      → merge (view bdb s key) e ≡ some e
      → Sees (written bdb s key e value alloc) applied merged
  unfolding written put_of holds view_open
  written-Sees t served stored m =
      rw (served, stored, m) (refl, put-holds bdb s key e value j v at stored)

  kept_sees : merge (view bdb s key) e ≡ view bdb s key → holds bdb (some s) j ≡ merged
  unfolding holds view_open
  kept_sees m = sym (merged_unchanged m)

  written_atomic :
      {r : DbResult × Option State}
      → r ≡ written bdb s key e value alloc
      → result_of (view bdb s key) e ≡ applied
      → merge (view bdb s key) e ≡ some e
      → (r ≡ (error, some s)) ⊎ Sees r (result_of (view bdb s key) e) merged
  unfolding written put_of
  written_atomic r code m =
      elim (Bool-cases (alloc (sizeof_cache_entry + (if e.tombstone then 0 else length e.value)))) [
        | inr short ↦ inl (r ∙ rw short)
        | inl served ↦ elim (Option-cases (put s key (encode e value))) [
          | inl refused ↦ inl (r ∙ rw (served, refused))
          | inr (t, stored) ↦ inr (rw (r, code) (written-Sees t served stored m))
        ]
      ]

  -- The ways in which the locked part can go.
  apply_cases :
      IsSound bdb s key
      → let r = apply_entry bdb alloc s key e value in
        ((r ≡ written bdb s key e value alloc)
          × (result_of (view bdb s key) e ≡ applied)
          × (merge (view bdb s key) e ≡ some e))
        ⊎ ((r ≡ (ignored, some s))
            × (result_of (view bdb s key) e ≡ ignored)
            × (merge (view bdb s key) e ≡ view bdb s key))
  unfolding answered view result_of merge wins incoming_wins decode view_found
  apply_cases (inl fresh) =
      rw (apply_entry-answered bdb s key e value alloc k v at, fresh) (inl (refl, refl, refl))
  apply_cases (inr (d, stored, valid)) =
      rw (apply_entry-answered bdb s key e value alloc k v at, stored, valid) (ground arith)

  -- When calloc and DB->put serve it, a delivery to a key that holds nothing or a valid record does
  -- on every key what the last-writer-wins merge says, and reports whether the write won.
  pub db_apply_record-merge :
      (t : State)
      → IsSound bdb s key
      → alloc (sizeof_cache_entry + (if e.tombstone then 0 else length e.value)) ≡ true
      → put s key (encode e value) ≡ some t
      → Sees (apply_entry bdb alloc s key e value) (result_of (view bdb s key) e) merged
  db_apply_record-merge t sound served stored = elim (apply_cases sound) [
    | inl (r, code, m) ↦ rw (r, code) (written-Sees t served stored m)
    | inr (r, code, m) ↦ rw (r, code) (refl, kept_sees m)
  ]

  -- Whatever calloc and DB->put do, a delivery either reports an error and leaves the handle as it
  -- was, or does what the merge says.
  pub db_apply_record_atomic :
      IsSound bdb s key
      → (apply_entry bdb alloc s key e value ≡ (error, some s))
        ⊎ Sees (apply_entry bdb alloc s key e value) (result_of (view bdb s key) e) merged
  db_apply_record_atomic sound = elim (apply_cases sound) [
    | inl (r, code, m) ↦ written_atomic r code m
    | inr (r, code, m) ↦ rw (r, code) (inr (refl, kept_sees m))
  ]
