-- ===== src/Imdb/Table.antt =====
-- What the five storages have in common (internal/repository/imdb/*.go): a table of pointers, the
-- objects that they point to, and the steps that the methods repeat. `none` for an error is nil.
pub mod Invariant
pub mod Change
pub mod View
pub mod Updates
use cloudgw.Prelude.{
  zero, true, ℕ, none, ◌∷◌, List, Option, false, [], if◌then◌else◌, String, ◌==◌, some, Bool, suc,
  nat_Eq, string_Eq, Eq,
}
use cloudgw.Imdb.Memdb.{MemDb, Error, Result, value, failed}

-- The objects that were allocated so far. A pointer is a number.
pub record Objects (Row : Type 0) : Type 0 where
  pub next : ℕ
  pub cell : ℕ → Option Row

module _ {Row : Type 0} where
  unfoldable pub alloc : Row → Objects Row → Objects Row
  alloc row o = record { next = suc o.next; cell = λ p. if o.next == p then some row else o.cell p }

  -- `*p = row`
  unfoldable pub poke : ℕ → Row → Objects Row → Objects Row
  poke p row o = record o { cell = λ q. if p == q then some row else o.cell q }

-- The indexes that a storage declares: the value of `id` for an object, none if it is missing, and
-- whether the other indexes have values.
pub record Schema (K Row : Type 0) : Type 0 where
  pub id_of : Row → Option K
  pub has_others : Row → Bool

-- memdb.StringFieldIndex: an empty string is no value
abbrev pub string_index : String → Option String
string_index s = if s == "" then none else some s

-- memdb.UintFieldIndex: every number is a value
abbrev pub uint_index : ℕ → Option ℕ
uint_index n = some n

pub record Store {K : Type 0} (m : MemDb K) (Row : Type 0) : Type 0 where
  pub db : MemDb.Db m
  pub objects : Objects Row

module _ {K Row : Type 0} (m : MemDb K) (schema : Schema K Row) where
  unfoldable pub new_store : Store m Row
  new_store = record { db = MemDb.empty m; objects = record { next = 0; cell = λ p. none } }

  -- txn.Insert of the object at a pointer, in a transaction that may write or not
  unfoldable pub insert : Bool → ℕ → Row → Store m Row → Option Error × Store m Row
  insert write p row s =
      let (err, db) = MemDb.insert m write (schema.id_of row) (schema.has_others row) p s.db in
      (err, record s { db = db })

  -- Insert of an object that the caller has made
  unfoldable pub add : Row → Store m Row → Option Error × Store m Row
  unfolding insert alloc
  add row s = insert true s.objects.next row (record s { objects = alloc row s.objects })

  -- First and the cast: `ok` is false for an error and for nil
  unfoldable pub fetch : K → Store m Row → Option ℕ
  fetch k s = elim (MemDb.first m k s.db) [ value o ↦ o | failed err ↦ none ]

  unfoldable pub get : K → Store m Row → Option Row
  unfolding fetch
  get k s = elim (fetch k s) [ none ↦ none | some p ↦ s.objects.cell p ]

  unfoldable pub is_present : K → Store m Row → Bool
  unfolding fetch
  is_present k s = elim (fetch k s) [ none ↦ false | some p ↦ true ]

  -- the write through the pointer and Insert of the same pointer, where the update goes on
  unfoldable pub write_back : Bool → ℕ → Option Row → Store m Row → Option Error × Store m Row
  unfolding insert poke
  write_back write p none s = (none, s)
  write_back write p (some row) s = insert write p row (record s { objects = poke p row s.objects })

  -- First, the cast, an update that may stop, the write and Insert. `missing` is returned where
  -- the cast fails.
  unfoldable pub change :
      Bool → Option Error → (Row → Option Row) → K → Store m Row → Option Error × Store m Row
  unfolding write_back
  change write missing f k s = elim (MemDb.first m k s.db) [
    | failed err ↦ (some err, s)
    | value none ↦ (missing, s)
    | value (some p) ↦ elim (s.objects.cell p) [
      | none ↦ (missing, s)
      | some row ↦ write_back write p (f row) s
    ]
  ]

  -- DeleteAll under one key; `missing` is returned where nothing was deleted
  unfoldable pub delete : Error → K → Store m Row → Option Error × Store m Row
  delete missing k s =
      let (r, db) = MemDb.delete_all m k s.db in
      (
        elim r [ failed err ↦ some err | value n ↦ if n == 0 then some missing else none ],
        record s { db = db },
      )

  unfoldable pub clear : Store m Row → Option Error × Store m Row
  clear s =
      let (r, db) = MemDb.delete_prefix m s.db in
      (elim r [ failed err ↦ some err | value n ↦ none ], record s { db = db })

  -- the loop over an iterator, with the cast of each object
  unfoldable pub collect : List ℕ → Objects Row → List Row
  collect [] o = []
  collect (p ∷ ps) o =
      let rest = collect ps o in elim (o.cell p) [ none ↦ rest | some row ↦ row ∷ rest ]

  -- a walk; an error, no iterator and no object give the same result, nil
  unfoldable pub rows : Result (List ℕ) → Store m Row → List Row
  unfolding collect
  rows (failed err) s = []
  rows (value ps) s = collect ps s.objects
