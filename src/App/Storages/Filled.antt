-- ===== src/App/Storages/Filled.antt =====
-- What the loops of internal/app/init_imdb.go leave in a storage: under each key the last entry of
-- the configuration that has it.
use cloudgw.App.Storages.{Init, InitError, done, fill}
use cloudgw.Imdb.Memdb.{MemDb, MemDbLaws, Error}
use cloudgw.Imdb.Table.{Schema, Store, add, get}
use cloudgw.Imdb.Table.Invariant.{IsValid, add-IsValid}
use cloudgw.Imdb.Table.View.{get-add}
use cloudgw.Prelude.{
  Eq, List, Option, [], arith, if◌then◌else◌, none, refl, some, true, ◌==◌, ◌∙◌, ◌∷◌, ◌≡◌,
}

module _ {A K : Type 0} ⦃e : Eq K⦄ (key : A → K) where
  unfoldable pub last_with : K → List A → Option A
  last_with k [] = none
  last_with k (x ∷ xs) = elim (last_with k xs) [
    | some y ↦ some y
    | none ↦ if key x == k then some x else none
  ]

-- The entry's object, or what was there.
abbrev pub placed : {A Row : Type 0} → (A → Row) → Option A → Option Row → Option Row
placed row none old = old
placed row (some x) old = some (row x)

module _ {A K Row : Type 0} ⦃e : Eq K⦄ {m : MemDb K} (laws : MemDbLaws m) (schema : Schema K Row)
    (make : A → Init Row) (row : A → Row) (key : A → K) (wrap : A → Error → InitError) where
  -- The entry gives an object with its indexes.
  pub record IsComplete (x : A) : Type 0 where
    pub made : make x ≡ done (row x)
    pub indexed : schema.id_of (row x) ≡ some (key x)
    pub complete : schema.has_others (row x) ≡ true

  abbrev pub AreComplete : List A → Type 0
  AreComplete [] = Unit
  AreComplete (x ∷ xs) = IsComplete x × AreComplete xs

  pub record IsFilled (xs : List A) (s : Store m Row) : Type 0 where
    pub after : Store m Row
    pub fills : fill make (add m schema) wrap xs s ≡ done after
    pub valid : IsValid laws schema after
    pub holds : (j : K) → get m schema j after ≡ placed row (last_with key j xs) (get m schema j s)

  fill-cons :
      (x : A) (xs : List A) (s : Store m Row)
      → IsComplete x
      → (add m schema (row x) s).0 ≡ none
      → fill make (add m schema) wrap (x ∷ xs) s
        ≡ fill make (add m schema) wrap xs (add m schema (row x) s).1
  unfolding fill
  fill-cons x xs s c a = rw (c.made, fill, a) refl

  placed-last :
      (x : A) (j : K) (o : Option A) (old : Option Row)
      → placed row o (if key x == j then some (row x) else old)
        ≡ placed row (elim o [ some y ↦ some y | none ↦ if key x == j then some x else none ]) old
  placed-last x j none old = ground arith
  placed-last x j (some y) old = refl

  pub fill-IsFilled :
      (xs : List A) (s : Store m Row) → IsValid laws schema s → AreComplete xs → IsFilled xs s
  unfolding last_with
  fill-IsFilled [] s v c = record {
    after = s;
    fills = unfold fill in refl;
    valid = v;
    holds = λ j. refl;
  }
  fill-IsFilled (x ∷ xs) s v c =
      let added = get-add laws schema (row x) (key x) s v c.0.indexed c.0.complete in
      let rest =
        fill-IsFilled xs (add m schema (row x) s).1
          (add-IsValid laws schema (row x) s v c.0.complete) c.1 in
      record {
        after = rest.after;
        fills = fill-cons x xs s c.0 added.0 ∙ rest.fills;
        valid = rest.valid;
        holds = λ j.
            rest.holds j ∙ rw (added.1 j) (placed-last x j (last_with key j xs) (get m schema j s));
      }
