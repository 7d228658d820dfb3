-- ===== src/Store/Rows.antt =====
-- Laws of the tables of store/database.ts: lookups after writes, keys, sums, and a loop that writes
-- rows of a snapshot back one by one.
use mathlib.Core.List.{Memᴰ}
use mathlib.Core.Path.{subst}
use mathlib.Core.Option.{some-injective}
use openclaw_wave_runner.Prelude.{
  ◌≡◌, ◌≢◌, ◌⊎◌, inl, inr, refl, sym, ap, ◌∙◌, All-map, All-of_mem, Bool, true, false, Option, none,
  some, List, [], ◌∷◌, ◌++◌, if◌then◌else◌, All, All-mem, find?, find?-some, Bool-cases, arith,
}
use openclaw_wave_runner.Store.Table.{
  Key, key_eq, key_eq_iff, key_eq_refl, get, put, remove, IsKeyed, merged,
}

module _ {A : Type 0} (key : A → Key) (merge : A → A → A)
    (merge_key : (old row : A) → key (merge old row) ≡ key old) where
  -- A lookup after a write.
  pub get-put :
      (k : Key) (row : A) (rows : List A)
      → get key k (put key merge row rows) ≡ (
          if key_eq (key row) k
          then some (merged merge (get key (key row) rows) row)
          else get key k rows)
  unfolding get put find?
  get-put k row [] = ground arith
  get-put k row (x ∷ xs) = ground (
    arith,
    get-put k row xs,
    merge_key x row,
    key_eq_iff (key x) (key row),
    key_eq_iff (key x) k,
    key_eq_iff (key row) k,
  )

  put-ne :
      (k : Key) (row : A) (rows : List A)
      → k ≢ key row
      → All (λ y. k ≢ key y) rows
      → All (λ y. k ≢ key y) (put key merge row rows)
  unfolding put
  put-ne k row [] ne h = (ne, tt)
  put-ne k row (x ∷ xs) ne h = ground (arith, put-ne k row xs ne h.1, merge_key x row)

  -- A write keeps the primary key.
  pub IsKeyed-put :
      (row : A) (rows : List A) → IsKeyed key rows → IsKeyed key (put key merge row rows)
  unfolding put
  IsKeyed-put row [] h = (tt, tt)
  IsKeyed-put row (x ∷ xs) h = elim (Bool-cases (key_eq (key x) (key row))) [
    | inl e ↦ rw e (subst (λ k. All (λ y. k ≢ key y) xs) (sym (merge_key x row)) h.0, h.1)
    | inr e ↦
        let ne : key x ≢ key row = ground (arith, key_eq_iff (key x) (key row)) in
        rw e (put-ne (key x) row xs ne h.0, IsKeyed-put row xs h.1)
  ]

  -- A write under a new key appends the row.
  pub put_fresh :
      (row : A) (rows : List A)
      → get key (key row) rows ≡ none
      → put key merge row rows ≡ rows ++ row ∷ []
  unfolding get put find?
  put_fresh row [] h = refl
  put_fresh row (x ∷ xs) h = ground (arith, put_fresh row xs)

-- A lookup after a deletion.
pub get-remove :
    {A : Type 0} (key : A → Key) (k l : Key) (rows : List A)
    → get key k (remove key l rows) ≡ (if key_eq l k then none else get key k rows)
unfolding get remove find?
get-remove key k l [] = ground arith
get-remove key k l (x ∷ xs) =
    ground
      (arith, get-remove key k l xs, key_eq_iff (key x) l, key_eq_iff (key x) k, key_eq_iff l k)

module _ {A : Type 0} (key : A → Key) where
  pub get-some :
      {k : Key} {row : A} (rows : List A)
      → get key k rows ≡ some row
      → Memᴰ row rows × (key row ≡ k)
  unfolding get
  get-some {k} {row} rows h =
      let (m, q) = find?-some (λ x. key_eq (key x) k) rows h in (m, (key_eq_iff (key row) k).0 q)

  -- In a keyed table a row is what its key looks up.
  pub get_of_mem :
      {row : A} (rows : List A)
      → IsKeyed key rows
      → Memᴰ row rows
      → get key (key row) rows ≡ some row
  unfolding get find?
  get_of_mem [] h m = elim m [ ]
  get_of_mem (x ∷ xs) h (Memᴰ.head e) = ground (arith, key_eq_refl (key x))
  get_of_mem {row} (x ∷ xs) h (Memᴰ.tail m) = ground (
    arith,
    All-mem (λ y. key x ≢ key y) xs h.0 m,
    key_eq_iff (key x) (key row),
    get_of_mem xs h.1 m,
  )

-- `for (const x of snapshot) if (test(x)) put(change(x))`
unfoldable pub put_each :
    {A : Type 0} (key : A → Key) (merge : A → A → A) (test : A → Bool) (change : A → A)
    → List A
    → List A
    → List A
put_each key merge test change [] rows = rows
put_each key merge test change (x ∷ xs) rows =
    put_each key merge test change xs (if test x then put key merge (change x) rows else rows)

-- The loop keeps the primary key.
pub IsKeyed-put_each :
    {A : Type 0} (key : A → Key) (merge : A → A → A)
    → ((old row : A) → key (merge old row) ≡ key old)
    → (test : A → Bool) (change : A → A) (xs rows : List A) → IsKeyed key rows
    → IsKeyed key (put_each key merge test change xs rows)
unfolding put_each
IsKeyed-put_each key merge merge_key test change [] rows h = h
IsKeyed-put_each key merge merge_key test change (x ∷ xs) rows h = elim (Bool-cases (test x)) [
  | inl e ↦ rw e (
      IsKeyed-put_each key merge merge_key test change xs (put key merge (change x) rows)
        (IsKeyed-put key merge merge_key (change x) rows h))
  | inr e ↦ rw e (IsKeyed-put_each key merge merge_key test change xs rows h)
]

module _ {A : Type 0} (key : A → Key) (merge : A → A → A)
    (merge_key : (old row : A) → key (merge old row) ≡ key old) (test : A → Bool) (change : A → A)
    (change_key : (x : A) → key (change x) ≡ key x) (Good : A → Type 0)
    (good : (old x : A) → test x ≡ true → Good (change x) × Good (merge old (change x))) where
  -- what the key looks up is good
  abbrev pub GoodAt : Key → List A → Type 0
  GoodAt k rows = (row : A) → get key k rows ≡ some row → Good row

  good_merged : (old : Option A) (x : A) → test x ≡ true → Good (merged merge old (change x))
  good_merged none x t = (good x x t).0
  good_merged (some old) x t = (good old x t).1

  GoodAt-hit :
      (k : Key) (x : A) (rows : List A)
      → test x ≡ true
      → key x ≡ k
      → GoodAt k (put key merge (change x) rows)
  GoodAt-hit k x rows t same row e =
      subst Good
        (some-injective (merged merge (get key (key (change x)) rows) (change x)) row (
          ground (
            arith,
            get-put key merge merge_key k (change x) rows,
            change_key x,
            key_eq_iff (key (change x)) k,
          )))
        (good_merged (get key (key (change x)) rows) x t)

  GoodAt-put :
      (k : Key) (x : A) (rows : List A)
      → test x ≡ true
      → GoodAt k rows
      → GoodAt k (put key merge (change x) rows)
  GoodAt-put k x rows t h row e = elim (Bool-cases (key_eq (key x) k)) [
    | inl same ↦ GoodAt-hit k x rows t ((key_eq_iff (key x) k).0 same) row e
    | inr other ↦
        h row (ground (arith, get-put key merge merge_key k (change x) rows, change_key x))
  ]

  GoodAt-if :
      (k : Key) (x : A) (rows : List A)
      → GoodAt k rows
      → GoodAt k (if test x then put key merge (change x) rows else rows)
  GoodAt-if k x rows h = elim (Bool-cases (test x)) [
    | inl t ↦ rw t (GoodAt-put k x rows t h)
    | inr f ↦ rw f h
  ]

  -- Rows of a snapshot that the loop skips are good already; then every key that is good before, or
  -- that the snapshot has, is good after the loop.
  pub GoodAt-put_each :
      (xs rows : List A)
      → All (λ x. test x ≡ false → GoodAt (key x) rows) xs
      → (k : Key) → GoodAt k rows ⊎ ((x : A) × Memᴰ x xs × (key x ≡ k))
      → GoodAt k (put_each key merge test change xs rows)
  unfolding put_each
  GoodAt-put_each [] rows skipped k (inl h) = h
  GoodAt-put_each [] rows skipped k (inr (x, m, e)) = elim m [ ]
  GoodAt-put_each (x ∷ xs) rows skipped k h =
      GoodAt-put_each xs (if test x then put key merge (change x) rows else rows)
        (All-map xs (λ y s f. GoodAt-if (key y) x rows (s f)) skipped.1) k (now h)
    where
      at_head :
          (y : A)
          → key y ≡ k
          → y ≡ x
          → GoodAt k (if test x then put key merge (change x) rows else rows)
      at_head y e same = elim (Bool-cases (test x)) [
        | inl t ↦ rw t (GoodAt-hit k x rows t (ap key (sym same) ∙ e))
        | inr f ↦ rw f (subst (λ l. GoodAt l rows) (ap key (sym same) ∙ e) (skipped.0 f))
      ]

      now :
          GoodAt k rows ⊎ ((y : A) × Memᴰ y (x ∷ xs) × (key y ≡ k))
          → GoodAt k (if test x then put key merge (change x) rows else rows)
            ⊎ ((y : A) × Memᴰ y xs × (key y ≡ k))
      now (inl g) = inl (GoodAt-if k x rows g)
      now (inr (y, Memᴰ.head same, e)) = inl (at_head y e same)
      now (inr (y, Memᴰ.tail m, e)) = inr (y, m, e)

  -- A snapshot of a keyed table: if the rows that the loop skips are good, then every key whose row
  -- is good or stands in the snapshot is good after the loop.
  pub GoodAt-snapshot :
      (xs rows : List A)
      → IsKeyed key rows
      → ((x : A) → Memᴰ x xs → Memᴰ x rows × (test x ≡ false → Good x))
      → (k : Key) → ((row : A) → get key k rows ≡ some row → Good row ⊎ Memᴰ row xs)
      → GoodAt k (put_each key merge test change xs rows)
  GoodAt-snapshot xs rows keyed snapshot k listed =
      GoodAt-put_each xs rows (All-of_mem _ xs skipped) k (held (get key k rows) refl)
    where
      skipped : (x : A) → Memᴰ x xs → test x ≡ false → GoodAt (key x) rows
      skipped x m f row e =
          let (there, good_if) = snapshot x m in
          subst Good (some-injective x row (sym (get_of_mem key rows keyed there) ∙ e)) (good_if f)

      held :
          (o : Option A) → get key k rows ≡ o → GoodAt k rows ⊎ ((x : A) × Memᴰ x xs × (key x ≡ k))
      held none e = inl (λ row f. absurd (ground (arith, e, f)))
      held (some row) e = elim (listed row e) [
        | inl h ↦ inl (λ other f. subst Good (some-injective row other (sym e ∙ f)) h)
        | inr m ↦ inr (row, m, (get-some key rows e).1)
      ]
