-- ===== src/Imdb/Table/Updates.antt =====
-- What updates and deletions do to a storage read as a finite map (internal/repository/imdb/*.go).
use cloudgw.Imdb.Memdb.{MemDb, MemDbLaws, Error}
use cloudgw.Imdb.Table.{Schema, Store, get, poke, change, clear, delete, insert}
use cloudgw.Imdb.Table.Invariant.{IsFiled, IsValid, KeepsIndexes, find_injective}
use cloudgw.Imdb.Table.Change.{change-absent, change-stops, change-writes}
use cloudgw.Imdb.Table.View.{row_at, is_some, get-none, get-filed, updated, get-find}
use cloudgw.Prelude.{
  Bool, Bool-cases, Eq, Option, Option-cases, arith, false, if◌then◌else◌, inl, inr, nat_eq,
  nat_eq_iff, none, refl, some, sym, true, ℕ, ◌==◌, ◌∙◌, ◌≡◌, ap,
}
use mathlib.Core.Bool.{false≢true}

module _ {K Row : Type 0} ⦃e : Eq K⦄ {m : MemDb K} (laws : MemDbLaws m)
    (schema : Schema K Row) where
  find-write_back :
      (write : Bool) (p : ℕ) (k j : K) (row : Row) (s : Store m Row)
      → laws.find k s.db ≡ some p
      → schema.id_of row ≡ some k
      → schema.has_others row ≡ true
      → laws.find j (insert m schema write p row s).1.db ≡ laws.find j s.db
  unfolding insert
  find-write_back false p k j row s h a b =
      rw ((laws.insert-read (schema.id_of row) (schema.has_others row) p s.db).1) refl
  find-write_back true p k j row s h a b =
      rw (a, b, laws.find-insert k j p s.db)
        (elim (Bool-cases (k == j)) [
          | inl same ↦ rw (same, ← (e.beq_iff k j).0 same, h) refl
          | inr other ↦ rw other refl
        ])

  row_at-poke :
      (p : ℕ) (k j : K) (row' : Row) (s : Store m Row)
      → IsValid laws schema s
      → laws.find k s.db ≡ some p
      → row_at laws schema (laws.find j s.db) (poke p row' s.objects)
        ≡ (if k == j then some row' else row_at laws schema (laws.find j s.db) s.objects)
  unfolding poke
  row_at-poke p k j row' s v h = elim (Bool-cases (k == j)) [
    | inl same ↦ rw (same, ← (e.beq_iff k j).0 same, h) (ground arith)
    | inr other ↦ elim (Option-cases (laws.find j s.db)) [
      | inl g ↦ rw (other, g) refl
      | inr (q, g) ↦ elim (Bool-cases (nat_eq p q)) [
        | inl clash ↦ absurd (
            false≢true (
              sym other
              ∙ (e.beq_iff k j).1
                  (find_injective laws schema s k j p v h (rw ((nat_eq_iff p q).0 clash) g))))
        | inr apart ↦ rw (other, g, apart) refl
      ]
    ]
  ]

  objects-insert :
      (write : Bool) (p : ℕ) (row : Row) (s : Store m Row)
      → (insert m schema write p row s).1.objects ≡ s.objects
  unfolding insert
  objects-insert write p row s = refl

  get-write_back :
      (write : Bool) (p : ℕ) (k j : K) (row' : Row) (s : Store m Row)
      → IsValid laws schema s
      → laws.find k s.db ≡ some p
      → schema.id_of row' ≡ some k
      → schema.has_others row' ≡ true
      → get m schema j
          (insert m schema write p row' (record s { objects = poke p row' s.objects })).1
        ≡ (if k == j then some row' else get m schema j s)
  get-write_back write p k j row' s v h a b =
      get-find laws schema j _
      ∙ rw
          (
            find-write_back write p k j row' (record s { objects = poke p row' s.objects }) h a b,
            objects-insert write p row' (record s { objects = poke p row' s.objects }),
            get-find laws schema j s,
          )
          (row_at-poke p k j row' s v h)

  put_same :
      {A : Type 0} (g : K → A) (k j : K) (a : A) → a ≡ g k → (if k == j then a else g j) ≡ g j
  put_same g k j a h = elim (Bool-cases (k == j)) [
    | inl same ↦ rw same (h ∙ ap g ((e.beq_iff k j).0 same))
    | inr other ↦ rw other refl
  ]

  updated-stops :
      (f : Row → Option Row) (row : Row) → f row ≡ none → updated f (some row) ≡ some row
  updated-stops f row g = ground arith

  updated-goes :
      (f : Row → Option Row) (row row' : Row) → f row ≡ some row' → updated f (some row) ≡ some row'
  updated-goes f row row' g = ground arith

  -- In a valid storage, an update that keeps the indexes of an object replaces the one under its key
  -- and no other, and nothing where there is none. It does so in a read transaction
  -- too, whose Insert is refused: the object is written through the pointer.
  pub get-change :
      (write : Bool) (missing : Option Error) (f : Row → Option Row) (k j : K) (s : Store m Row)
      → KeepsIndexes schema f
      → IsValid laws schema s
      → get m schema j (change m schema write missing f k s).1
        ≡ (if k == j then updated f (get m schema k s) else get m schema j s)
  get-change write missing f k j s keeps v = elim (Option-cases (laws.find k s.db)) [
    | inl h ↦
        rw (change-absent laws schema write missing f k s h)
          (sym (put_same (λ x. get m schema x s) k j _ (rw (get-none laws schema k s h) refl)))
    | inr (p, h) ↦
        let filed : IsFiled laws schema k p s.objects = v.filed k p h in
        let found : get m schema k s ≡ some filed.row = get-filed laws schema k p s v h in
        elim (Option-cases (f filed.row)) [
          | inl g ↦ rw (change-stops laws schema write missing f k s p filed.row h filed.here g) (
              sym (put_same (λ x. get m schema x s) k j _ (rw found (updated-stops f filed.row g))))
          | inr (row', g) ↦
              rw
                (
                  change-writes laws schema write missing f k s p filed.row row' h filed.here g,
                  found,
                  updated-goes f filed.row row' g,
                )
                (get-write_back write p k j row' s v h ((keeps filed.row row' g).0 ∙ filed.indexed)
                  ((keeps filed.row row' g).1 ∙ filed.complete))
        ]
  ]

  -- A deletion removes the object under its key and no other, and fails exactly where there is
  -- none.
  pub get-delete :
      (missing : Error) (k j : K) (s : Store m Row)
      → get m schema j (delete m schema missing k s).1 ≡ (if k == j then none else get m schema j s)
  unfolding delete
  get-delete missing k j s =
      get-find laws schema j _
      ∙ rw (laws.find-delete_all k j s.db, get-find laws schema j s) (ground arith)

  pub delete-error :
      (missing : Error) (k : K) (s : Store m Row)
      → IsValid laws schema s
      → (delete m schema missing k s).0
        ≡ (if is_some (get m schema k s) then none else some missing)
  unfolding delete
  delete-error missing k s v = elim (Option-cases (laws.find k s.db)) [
    | inl h ↦ rw (get-none laws schema k s h, laws.delete_all-count k s.db, h, delete) refl
    | inr (p, h) ↦
        rw (get-filed laws schema k p s v h, laws.delete_all-count k s.db, h, delete) refl
  ]

  pub get-clear : (k : K) (s : Store m Row) → get m schema k (clear m schema s).1 ≡ none
  unfolding clear
  get-clear k s = get-none laws schema k _ (laws.find-delete_prefix k s.db)
