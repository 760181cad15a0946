-- ===== src/Imdb/Table/Change.antt =====
-- Updates through a pointer: First, a write to the object, Insert of the same pointer
-- (internal/repository/imdb/*.go).
use cloudgw.Imdb.Memdb.{MemDb, MemDbLaws, Error}
use cloudgw.Imdb.Table.{Schema, Store, change, delete, poke, clear, insert, write_back}
use cloudgw.Imdb.Table.Invariant.{IsFiled, IsValid, poke-IsFiled, insert-IsValid, KeepsIndexes}
use cloudgw.Prelude.{
  Bool, Eq, Option, Option-cases, arith, false, inl, inr, none, refl, some, true, ℕ, ◌≡◌,
}

module _ {K Row : Type 0} ⦃e : Eq K⦄ {m : MemDb K} (laws : MemDbLaws m)
    (schema : Schema K Row) where
  poke-IsValid :
      (p : ℕ) (row row' : Row) (s : Store m Row)
      → IsValid laws schema s
      → s.objects.cell p ≡ some row
      → schema.id_of row' ≡ schema.id_of row
      → schema.has_others row' ≡ schema.has_others row
      → IsValid laws schema (record s { objects = poke p row' s.objects })
  poke-IsValid p row row' s v c a b = record {
    filed = λ k q h. poke-IsFiled laws schema s.objects k q p row row' c a b (v.filed k q h);
  }

  -- The object is written in place whether or not the transaction may write.
  write_back-IsValid :
      (write : Bool) (p : ℕ) (k : K) (row row' : Row) (s : Store m Row)
      → IsValid laws schema s
      → laws.find k s.db ≡ some p
      → s.objects.cell p ≡ some row
      → schema.id_of row' ≡ schema.id_of row
      → schema.has_others row' ≡ schema.has_others row
      → IsValid laws schema
          (insert m schema write p row' (record s { objects = poke p row' s.objects })).1
  unfolding insert
  write_back-IsValid false p k row row' s v h c a b =
      rw ((laws.insert-read (schema.id_of row') (schema.has_others row') p s.db).1)
        (poke-IsValid p row row' s v c a b)
  write_back-IsValid true p k row row' s v h c a b =
      let f : IsFiled laws schema k p s.objects = v.filed k p h in
      insert-IsValid laws schema p row' k (record s { objects = poke p row' s.objects })
        (poke-IsValid p row row' s v c a b) (ground (arith, f.here, f.indexed))
        (ground (arith, f.here, f.complete))
        (poke-IsFiled laws schema s.objects k p p row row' c a b f)

  module _ (write : Bool) (missing : Option Error) (f : Row → Option Row) (k : K)
      (s : Store m Row) where
    pub change-absent : laws.find k s.db ≡ none → change m schema write missing f k s ≡ (missing, s)
    unfolding change write_back
    change-absent h = rw (laws.first-find k s.db, h, change) refl

    pub change-stops :
        (p : ℕ) (row : Row)
        → laws.find k s.db ≡ some p
        → s.objects.cell p ≡ some row
        → f row ≡ none
        → change m schema write missing f k s ≡ (none, s)
    unfolding change write_back
    change-stops p row h c g = rw (laws.first-find k s.db, h, c, g, change, write_back) refl

    pub change-writes :
        (p : ℕ) (row row' : Row)
        → laws.find k s.db ≡ some p
        → s.objects.cell p ≡ some row
        → f row ≡ some row'
        → change m schema write missing f k s
          ≡ insert m schema write p row' (record s { objects = poke p row' s.objects })
    unfolding change write_back
    change-writes p row row' h c g = rw (laws.first-find k s.db, h, c, g, change, write_back) refl

    -- An update that keeps the indexes of an object keeps the storage valid, whether the object is
    -- there or not, the update stops or goes on, and the transaction may write or not.
    pub change-IsValid :
        KeepsIndexes schema f
        → IsValid laws schema s
        → IsValid laws schema (change m schema write missing f k s).1
    change-IsValid keeps v = elim (Option-cases (laws.find k s.db)) [
      | inl h ↦ rw (change-absent h) v
      | inr (p, h) ↦
          let filed : IsFiled laws schema k p s.objects = v.filed k p h in
          elim (Option-cases (f filed.row)) [
            | inl g ↦ rw (change-stops p filed.row h filed.here g) v
            | inr (row', g) ↦ rw (change-writes p filed.row row' h filed.here g) (
                write_back-IsValid write p k filed.row row' s v h filed.here
                  (keeps filed.row row' g).0 (keeps filed.row row' g).1)
          ]
    ]

  -- Deleting keeps the invariant.
  pub delete-IsValid :
      (missing : Error) (k : K) (s : Store m Row)
      → IsValid laws schema s
      → IsValid laws schema (delete m schema missing k s).1
  unfolding delete
  delete-IsValid missing k s v = record {
    filed = λ j p h. v.filed j p (ground (arith, laws.find-delete_all k j s.db));
  }

  pub clear-IsValid :
      (s : Store m Row) → IsValid laws schema s → IsValid laws schema (clear m schema s).1
  unfolding clear
  clear-IsValid s v = record { filed = λ k p h. cc (laws.find-delete_prefix k s.db) }
