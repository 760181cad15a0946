-- ===== src/Imdb/Table/View.antt =====
-- A storage read as a finite map from keys to objects: what each step of internal/repository/imdb
-- does to that map.
use cloudgw.Imdb.Memdb.{MemDb, MemDbLaws}
use cloudgw.Imdb.Table.{
  Objects, Schema, Store, get, new_store, is_present, alloc, insert, add, fetch,
}
use cloudgw.Imdb.Table.Invariant.{IsFiled, IsValid}
use cloudgw.Prelude.{
  Bool, Eq, Option, Option-cases, arith, false, if◌then◌else◌, inl, inr, none, refl, some, true, ℕ,
  ◌==◌, ◌∙◌, ◌≡◌, ◌≢◌, sym,
}

abbrev pub is_some {ℓ} : {A : Type ℓ} → Option A → Bool
is_some none = false
is_some (some a) = true

-- The object after an update that may stop.
abbrev pub updated : {Row : Type 0} → (Row → Option Row) → Option Row → Option Row
updated f none = none
updated f (some row) = elim (f row) [ none ↦ some row | some row' ↦ some row' ]

module _ {K Row : Type 0} ⦃e : Eq K⦄ {m : MemDb K} (laws : MemDbLaws m)
    (schema : Schema K Row) where
  abbrev pub row_at : Option ℕ → Objects Row → Option Row
  row_at none o = none
  row_at (some p) o = o.cell p

  pub get-find : (k : K) (s : Store m Row) → get m schema k s ≡ row_at (laws.find k s.db) s.objects
  unfolding get
  get-find k s = rw (laws.first-find k s.db, get, fetch) (ground arith)

  pub get-none : (k : K) (s : Store m Row) → laws.find k s.db ≡ none → get m schema k s ≡ none
  get-none k s h = get-find k s ∙ rw h refl

  pub get-some :
      (k : K) (p : ℕ) (s : Store m Row)
      → laws.find k s.db ≡ some p
      → get m schema k s ≡ s.objects.cell p
  get-some k p s h = get-find k s ∙ rw h refl

  pub get-filed :
      (k : K) (p : ℕ) (s : Store m Row)
      → (v : IsValid laws schema s) (h : laws.find k s.db ≡ some p)
      → get m schema k s ≡ some (v.filed k p h).row
  get-filed k p s v h = get-some k p s h ∙ (v.filed k p h).here

  indexed_same :
      (k : K) (a b : Row) → some a ≡ some b → schema.id_of a ≡ some k → schema.id_of b ≡ some k
  indexed_same k a b e h = ground (arith, e, h)

  -- An object that is found has the key under which it is found.
  pub get-indexed :
      (k : K) (row : Row) (s : Store m Row)
      → IsValid laws schema s
      → get m schema k s ≡ some row
      → schema.id_of row ≡ some k
  get-indexed k row s v e = elim (Option-cases (laws.find k s.db)) [
    | inl h ↦ absurd (cc (get-none k s h, e))
    | inr (p, h) ↦
        indexed_same k (v.filed k p h).row row (sym (get-filed k p s v h) ∙ e)
          (v.filed k p h).indexed
  ]

  -- `ok` of the cast is true exactly when there is an object.
  pub is_present-get :
      (k : K) (s : Store m Row)
      → IsValid laws schema s
      → is_present m schema k s ≡ is_some (get m schema k s)
  unfolding is_present
  is_present-get k s v = elim (Option-cases (laws.find k s.db)) [
    | inl h ↦ rw (get-none k s h, laws.first-find k s.db, h, is_present, fetch) refl
    | inr (p, h) ↦ rw (get-filed k p s v h, laws.first-find k s.db, h, is_present, fetch) refl
  ]

  pub get-new_store : (k : K) → get m schema k (new_store m schema) ≡ none
  unfolding new_store
  get-new_store k = get-none k (new_store m schema) (laws.find-empty k)

  cell-alloc :
      (row : Row) (k : K) (p : ℕ) (o : Objects Row)
      → IsFiled laws schema k p o
      → (alloc row o).cell p ≡ o.cell p
  unfolding alloc
  cell-alloc row k p o f = ground (arith, f.old)

  row_at-alloc :
      (row : Row) (k : K) (s : Store m Row)
      → IsValid laws schema s
      → row_at (laws.find k s.db) (alloc row s.objects) ≡ row_at (laws.find k s.db) s.objects
  row_at-alloc row k s v = elim (Option-cases (laws.find k s.db)) [
    | inl h ↦ rw h refl
    | inr (p, h) ↦ rw h (cell-alloc row k p s.objects (v.filed k p h))
  ]

  cell-alloc_new : (row : Row) (o : Objects Row) → (alloc row o).cell o.next ≡ some row
  unfolding alloc
  cell-alloc_new row o = ground arith

  get-insert :
      (p : ℕ) (row : Row) (k j : K) (s : Store m Row)
      → schema.id_of row ≡ some k
      → schema.has_others row ≡ true
      → get m schema j (insert m schema true p row s).1
        ≡ (if k == j then s.objects.cell p else row_at (laws.find j s.db) s.objects)
  unfolding insert
  get-insert p row k j s a b = get-find j _ ∙ rw (a, b, laws.find-insert k j p s.db) (ground arith)

  -- An object with its indexes is accepted, and is then the one under its key.
  pub get-add :
      (row : Row) (k : K) (s : Store m Row)
      → IsValid laws schema s
      → schema.id_of row ≡ some k
      → schema.has_others row ≡ true
      → ((add m schema row s).0 ≡ none)
        × ((j : K)
            → get m schema j (add m schema row s).1
              ≡ (if k == j then some row else get m schema j s))
  unfolding add insert
  get-add row k s v a b = (
    rw (a, b) (laws.insert-accepts k s.objects.next s.db),
    λ j.
        get-insert s.objects.next row k j (record s { objects = alloc row s.objects }) a b
        ∙ rw (cell-alloc_new row s.objects, row_at-alloc row j s v, get-find j s) refl,
  )

  -- An object without the index is refused, and no key changes.
  pub get-add_missing :
      (row : Row) (s : Store m Row)
      → IsValid laws schema s
      → schema.id_of row ≡ none
      → schema.has_others row ≡ true
      → ((add m schema row s).0 ≢ none)
        × ((j : K) → get m schema j (add m schema row s).1 ≡ get m schema j s)
  unfolding add insert alloc
  get-add_missing row s v a b = (
    rw (a, b) (laws.insert-missing true s.objects.next s.db).0,
    λ j.
        get-find j _
        ∙ rw
            (
              a,
              b,
              (laws.insert-missing true s.objects.next s.db).1,
              row_at-alloc row j s v,
              get-find j s,
            )
            refl,
  )
