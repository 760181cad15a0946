-- ===== src/Imdb/Table/Invariant.antt =====
-- What holds of a storage between two calls: the table points to objects that exist, each filed
-- under its own index (internal/repository/imdb/*.go).
use cloudgw.Imdb.Memdb.{MemDb, MemDbLaws}
use cloudgw.Imdb.Table.{Objects, Schema, Store, alloc, new_store, poke, insert, add}
use cloudgw.Prelude.{
  Bool-cases, Eq, Option, arith, if◌then◌else◌, inl, inr, refl, some, sym, true, ℕ, ◌<◌, ◌==◌, ◌∙◌,
  ◌≡◌, nat_Eq, subst, Option-cases,
}

-- The update keeps the indexes of an object.
abbrev pub KeepsIndexes : {K Row : Type 0} → Schema K Row → (Row → Option Row) → Type 0
KeepsIndexes schema f =
    (row row' : _)
    → f row ≡ some row'
    → (schema.id_of row' ≡ schema.id_of row) × (schema.has_others row' ≡ schema.has_others row)

module _ {K Row : Type 0} ⦃e : Eq K⦄ {m : MemDb K} (laws : MemDbLaws m)
    (schema : Schema K Row) where
  -- The pointer is that of an object which has the index.
  pub record IsFiled (k : K) (p : ℕ) (o : Objects Row) : Type 0 where
    pub old : p < o.next
    pub row : Row
    pub here : o.cell p ≡ some row
    pub indexed : schema.id_of row ≡ some k
    pub complete : schema.has_others row ≡ true

  pub record IsValid (s : Store m Row) : Type 0 where
    pub filed : (k : K) (p : ℕ) → laws.find k s.db ≡ some p → IsFiled k p s.objects

  pub new_store-IsValid : IsValid (new_store m schema)
  unfolding new_store
  new_store-IsValid = record { filed = λ k p h. cc (laws.find-empty k) }

  IsFiled-injective : (o : Objects Row) (k j : K) (p : ℕ) → IsFiled k p o → IsFiled j p o → k ≡ j
  IsFiled-injective o k j p a b = ground (arith, a.here, b.here, a.indexed, b.indexed)

  -- One pointer is filed under one key only.
  pub find_injective :
      (s : Store m Row) (k j : K) (p : ℕ)
      → IsValid s
      → laws.find k s.db ≡ some p
      → laws.find j s.db ≡ some p
      → k ≡ j
  find_injective s k j p v a b = IsFiled-injective s.objects k j p (v.filed k p a) (v.filed j p b)

  pub alloc-IsFiled :
      (o : Objects Row) (k : K) (p : ℕ) (row : Row) → IsFiled k p o → IsFiled k p (alloc row o)
  unfolding alloc
  alloc-IsFiled o k p row f = record {
    old = omega (arith, f.old);
    row = f.row;
    here = ground (arith, f.old, f.here);
    indexed = f.indexed;
    complete = f.complete;
  }

  pub alloc-new :
      (o : Objects Row) (k : K) (row : Row)
      → schema.id_of row ≡ some k
      → schema.has_others row ≡ true
      → IsFiled k o.next (alloc row o)
  unfolding alloc
  alloc-new o k row a b = record {
    old = omega arith;
    row = row;
    here = ground arith;
    indexed = a;
    complete = b;
  }

  pub poke-IsFiled :
      (o : Objects Row) (k : K) (p q : ℕ) (row row' : Row)
      → o.cell q ≡ some row
      → schema.id_of row' ≡ schema.id_of row
      → schema.has_others row' ≡ schema.has_others row
      → IsFiled k p o
      → IsFiled k p (poke q row' o)
  unfolding poke
  poke-IsFiled o k p q row row' c a b f = elim (Bool-cases (q == p)) [
    | inl same ↦ record {
      old = f.old;
      row = row';
      here = rw same refl;
      indexed = ground (arith, f.here, f.indexed);
      complete = ground (arith, f.here, f.complete);
    }
    | inr other ↦ record {
      old = f.old;
      row = f.row;
      here = rw other f.here;
      indexed = f.indexed;
      complete = f.complete;
    }
  ]

  IsFiled-after :
      (p : ℕ) (k j : K) (q : ℕ) (s : Store m Row)
      → IsValid s
      → IsFiled k p s.objects
      → (if k == j then some p else laws.find j s.db) ≡ some q
      → IsFiled j q s.objects
  IsFiled-after p k j q s v f h = elim (Bool-cases (k == j)) [
    | inl same ↦
        let pq : p ≡ q = ground arith in
        subst (λ (x : K). IsFiled x q s.objects) ((e.beq_iff k j).0 same)
          (subst (λ (x : ℕ). IsFiled k x s.objects) pq f)
    | inr other ↦ v.filed j q (rw other at h)
  ]

  -- An accepted Insert of an object that is there files it, and keeps the rest.
  pub insert-IsValid :
      (p : ℕ) (row : Row) (k : K) (s : Store m Row)
      → IsValid s
      → schema.id_of row ≡ some k
      → schema.has_others row ≡ true
      → IsFiled k p s.objects
      → IsValid (insert m schema true p row s).1
  unfolding insert
  insert-IsValid p row k s v a b f =
      rw (a, b)
        (record {
          filed = λ j q h. IsFiled-after p k j q s v f (sym (laws.find-insert k j p s.db) ∙ h);
        })

  pub alloc-IsValid :
      (row : Row) (s : Store m Row)
      → IsValid s
      → IsValid (record s { objects = alloc row s.objects })
  alloc-IsValid row s v = record {
    filed = λ k p h. alloc-IsFiled s.objects k p row (v.filed k p h);
  }

  -- Adding an object keeps the invariant, whether the table takes it or not.
  pub add-IsValid :
      (row : Row) (s : Store m Row)
      → IsValid s
      → schema.has_others row ≡ true
      → IsValid (add m schema row s).1
  unfolding add insert
  add-IsValid row s v b = elim (Option-cases (schema.id_of row)) [
    | inl missing ↦
        rw (missing, b, (laws.insert-missing true s.objects.next s.db).1) (alloc-IsValid row s v)
    | inr (k, a) ↦
        insert-IsValid s.objects.next row k (record s { objects = alloc row s.objects })
          (alloc-IsValid row s v) a b (alloc-new s.objects k row a b)
  ]
