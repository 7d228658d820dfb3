-- ===== src/Store/Table.antt =====
-- A table of rows with a primary key (store/database.ts): `SELECT ... WHERE key = ?`,
-- `INSERT ... ON CONFLICT(key) DO UPDATE`, `DELETE`. The key is the list of the key columns.
use openclaw_wave_runner.Prelude.{
  ◌≡◌, ◌≢◌, ◌↔◌, refl, Bool, true, false, ◌&&◌, Option, none, some, List, [], ◌∷◌, if◌then◌else◌,
  Text, text_eq, text_eq_iff, All, find?, arith,
}

abbrev pub Key : Type 0
Key = List Text

unfoldable pub key_eq : Key → Key → Bool
key_eq [] [] = true
key_eq (s ∷ k) (t ∷ l) = text_eq s t && key_eq k l
key_eq _ _ = false

key_eq_sound : (k l : Key) → key_eq k l ≡ true → k ≡ l
unfolding key_eq
key_eq_sound [] [] h = refl
key_eq_sound (s ∷ k) (t ∷ l) h = ground (arith, text_eq_iff s t, key_eq_sound k l)
key_eq_sound [] (t ∷ l) h = ground arith
key_eq_sound (s ∷ k) [] h = ground arith

pub key_eq_refl : (k : Key) → key_eq k k ≡ true
unfolding key_eq
key_eq_refl [] = refl
key_eq_refl (s ∷ k) = ground (arith, text_eq_iff s s, key_eq_refl k)

key_eq_complete : (k l : Key) → k ≡ l → key_eq k l ≡ true
key_eq_complete k l e = ground (arith, key_eq_refl k)

pub key_eq_iff : (k l : Key) → (key_eq k l ≡ true) ↔ (k ≡ l)
key_eq_iff k l = (key_eq_sound k l, key_eq_complete k l)

module _ {A : Type 0} (key : A → Key) where
  unfoldable pub get : Key → List A → Option A
  unfolding find? key_eq text_eq
  get k rows = find? (λ row. key_eq (key row) k) rows

  -- `merge old new` is the row after `DO UPDATE SET`.
  unfoldable pub put : (A → A → A) → A → List A → List A
  unfolding key_eq text_eq
  put merge row [] = row ∷ []
  put merge row (x ∷ xs) =
      if key_eq (key x) (key row) then merge x row ∷ xs else x ∷ put merge row xs

  unfoldable pub remove : Key → List A → List A
  unfolding key_eq text_eq
  remove k [] = []
  remove k (x ∷ xs) = let rest = remove k xs in if key_eq (key x) k then rest else x ∷ rest

  -- the primary key: no two rows share it
  abbrev pub IsKeyed : List A → Type 0
  IsKeyed [] = Unit
  IsKeyed (x ∷ xs) = All (λ y. key x ≢ key y) xs × IsKeyed xs

abbrev pub merged : {A : Type 0} → (A → A → A) → Option A → A → A
merged merge none row = row
merged merge (some old) row = merge old row
