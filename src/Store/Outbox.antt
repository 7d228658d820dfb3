-- ===== src/Store/Outbox.antt =====
-- The outbox of store/database.ts by its idempotency keys: a row that is read, changed and written back
-- under its id.
use openclaw_wave_runner.Prelude.{
  ◌≡◌, ◌≢◌, inl, inr, refl, sym, ap, ◌∙◌, map, false, Option, some, List, [], ◌∷◌, if◌then◌else◌,
  find?, find?-some, Text, text_eq, text_eq_iff, All-mem, Bool-cases, ok, arith,
}
use openclaw_wave_runner.Domain.{LaunchOutbox}
use openclaw_wave_runner.Store.{
  WaveDatabase, outbox_key, merge_outbox, get_outbox_by_idempotency, put_outbox,
}
use openclaw_wave_runner.Store.Table.{put, IsKeyed, key_eq, key_eq_iff}
use openclaw_wave_runner.Store.Rows.{get_of_mem, IsKeyed-put}

abbrev by_key : Text → List LaunchOutbox → Option LaunchOutbox
by_key k rows = find? (λ (item : LaunchOutbox). text_eq item.idempotency_key k) rows

module _ (k : Text) (r r' : LaunchOutbox) (same_id : r'.outbox_id ≡ r.outbox_id) where
  by_key-put :
      (j : Text) (rows : List LaunchOutbox)
      → IsKeyed outbox_key rows
      → by_key k rows ≡ some r
      → by_key j (put outbox_key merge_outbox r' rows)
        ≡ (if text_eq k j then some (merge_outbox r r') else by_key j rows)
  unfolding put find?
  by_key-put j [] keyed h = ground arith
  by_key-put j (x ∷ xs) keyed h = elim (Bool-cases (text_eq x.idempotency_key k)) [
    | inl own ↦
        let same : x ≡ r = ground (arith, own) in
        ground (
          arith,
          ap (λ (row : LaunchOutbox). row.idempotency_key) same,
          ap (λ (row : LaunchOutbox). row.outbox_id) same,
          key_eq_iff (outbox_key x) (outbox_key r'),
          text_eq_iff x.idempotency_key k,
          text_eq_iff x.idempotency_key j,
          text_eq_iff k j,
        )
    | inr other ↦
        let found : by_key k xs ≡ some r = ground (arith, other) in
        let ne : outbox_key x ≢ outbox_key r =
          All-mem (λ y. outbox_key x ≢ outbox_key y) xs keyed.0 (find?-some _ xs found).0 in
        ground (
          arith,
          ne,
          by_key-put j xs keyed.1 found,
          key_eq_iff (outbox_key x) (outbox_key r'),
          text_eq_iff x.idempotency_key k,
          text_eq_iff x.idempotency_key j,
          text_eq_iff k j,
        )
  ]

  keys-put :
      (rows : List LaunchOutbox)
      → IsKeyed outbox_key rows
      → by_key k rows ≡ some r
      → map (λ (item : LaunchOutbox). item.idempotency_key) (put outbox_key merge_outbox r' rows)
        ≡ map (λ (item : LaunchOutbox). item.idempotency_key) rows
  unfolding put find?
  keys-put [] keyed h = cc
  keys-put (x ∷ xs) keyed h = elim (Bool-cases (text_eq x.idempotency_key k)) [
    | inl own ↦
        let same : x ≡ r = ground (arith, own) in
        rw
          ((key_eq_iff (outbox_key x) (outbox_key r')).1
            (ap (λ t. t ∷ []) (ap (λ (row : LaunchOutbox). row.outbox_id) same ∙ sym same_id)))
          refl
    | inr other ↦
        let found : by_key k xs ≡ some r = ground (arith, other) in
        let ne : outbox_key x ≢ outbox_key r =
          All-mem (λ y. outbox_key x ≢ outbox_key y) xs keyed.0 (find?-some _ xs found).0 in
        let differ : key_eq (outbox_key x) (outbox_key r') ≡ false =
          ground (arith, ne, key_eq_iff (outbox_key x) (outbox_key r')) in
        rw differ (ap (λ ks. x.idempotency_key ∷ ks) (keys-put xs keyed.1 found))
  ]

-- the idempotency keys of the rows
abbrev pub outbox_keys : WaveDatabase → List Text
outbox_keys db = map (λ (item : LaunchOutbox). item.idempotency_key) db.outbox

-- the ledger after a row of the outbox is written under an id that is there
abbrev pub moved_row : LaunchOutbox → WaveDatabase → WaveDatabase
moved_row row db = record db { outbox = put outbox_key merge_outbox row db.outbox }

abbrev pub IsKeyedOutbox : WaveDatabase → Type 0
IsKeyedOutbox db = IsKeyed outbox_key db.outbox

pub IsKeyedOutbox-moved_row :
    (row : LaunchOutbox) (db : WaveDatabase) → IsKeyedOutbox db → IsKeyedOutbox (moved_row row db)
IsKeyedOutbox-moved_row row db = IsKeyed-put outbox_key merge_outbox (λ old r. refl) row db.outbox

module _ (k : Text) (db : WaveDatabase) (keyed : IsKeyedOutbox db) (r r' : LaunchOutbox)
    (there : get_outbox_by_idempotency k db ≡ some r) (same_id : r'.outbox_id ≡ r.outbox_id) where
  -- A row that was read may be written back.
  pub put_outbox_found : put_outbox r' db ≡ ok (moved_row r' db)
  unfolding put_outbox get_outbox_by_idempotency
  put_outbox_found =
      let mem =
        (find?-some (λ (item : LaunchOutbox). text_eq item.idempotency_key k) db.outbox there).0 in
      ground (arith, get_of_mem outbox_key db.outbox keyed mem)

  pub outbox_keys-moved_row : outbox_keys (moved_row r' db) ≡ outbox_keys db
  unfolding get_outbox_by_idempotency
  outbox_keys-moved_row = keys-put k r r' same_id db.outbox keyed there

  -- Then its key finds it, and the others find what they found.
  pub get_outbox-moved_row :
      (j : Text)
      → get_outbox_by_idempotency j (moved_row r' db)
        ≡ (if text_eq k j then some (merge_outbox r r') else get_outbox_by_idempotency j db)
  unfolding get_outbox_by_idempotency
  get_outbox-moved_row j = by_key-put k r r' same_id j db.outbox keyed there

-- The row that a key finds has that key.
pub get_outbox_key :
    (k : Text) (db : WaveDatabase) (r : LaunchOutbox)
    → get_outbox_by_idempotency k db ≡ some r
    → r.idempotency_key ≡ k
unfolding get_outbox_by_idempotency
get_outbox_key k db r there =
    (text_eq_iff r.idempotency_key k).0
      (find?-some (λ (item : LaunchOutbox). text_eq item.idempotency_key k) db.outbox there).1
