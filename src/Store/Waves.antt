-- ===== src/Store/Waves.antt =====
-- The table of waves (store/database.ts) after a wave is written back.
use openclaw_wave_runner.Prelude.{◌≡◌, refl, some, [], ◌∷◌, Text, arith}
use openclaw_wave_runner.Domain.{WaveRecord}
use openclaw_wave_runner.Store.{WaveDatabase, get_wave, put_wave, wave_key, merge_wave}
use openclaw_wave_runner.Store.Table.{key_eq_refl}
use openclaw_wave_runner.Store.Rows.{get-put, get-some}

-- A wave that is read, changed and written back, under the same id and time of creation, is what is
-- read afterwards.
pub get_wave-put_wave :
    (wave_id : Text) (w w' : WaveRecord) (db : WaveDatabase)
    → get_wave wave_id db ≡ some w
    → w'.wave_id ≡ w.wave_id
    → w'.created_at ≡ w.created_at
    → get_wave wave_id (put_wave w' db) ≡ some w'
unfolding get_wave put_wave
get_wave-put_wave wave_id w w' db there same_id same_birth =
    let own : w.wave_id ∷ [] ≡ wave_id ∷ [] = (get-some wave_key db.waves there).1 in
    ground (
      arith,
      own,
      get-put wave_key merge_wave (λ old row. refl) (wave_id ∷ []) w' db.waves,
      key_eq_refl (wave_id ∷ []),
    )

-- The wave that an id finds has that id.
pub get_wave_id :
    (wave_id : Text) (w : WaveRecord) (db : WaveDatabase)
    → get_wave wave_id db ≡ some w
    → w.wave_id ≡ wave_id
unfolding get_wave
get_wave_id wave_id w db there =
    let own : w.wave_id ∷ [] ≡ wave_id ∷ [] = (get-some wave_key db.waves there).1 in
    ground (arith, own)
