-- ===== src/Imdb/Memdb.antt =====
-- The tables of go-memdb as the storages use them: a parameter of the model, with the documented
-- behaviour as laws. A table holds pointers to objects; which field of an object is its index is
-- the schema's part, under internal/repository/imdb.
use cloudgw.Prelude.{
  ℕ, String, Bool, true, false, Option, none, some, List, ◌≡◌, ◌≢◌, Eq, ◌==◌, nat_Eq, absent,
  if◌then◌else◌, inl, inr, ◌⊎◌, refl,
}

-- internal/repository/imdb/error.go, and the errors of the library.
pub data Error : Type 0 where
  no_vpp_fip_found no_bgp_peer_found no_bgp_peers_found no_vpp_vrfs_found : Error
  no_vpp_udp_tunnel_found : Error
  library : String → Error

pub data Result {ℓ} (A : Type ℓ) : Type ℓ where
  value : A → Result A
  failed : Error → Result A

-- The number of objects under one key of a unique index.
abbrev pub count_of : Option ℕ → ℕ
count_of none = 0
count_of (some _) = 1

pub Result-cases {ℓ} :
    {A : Type ℓ} (r : Result A) → ((e : Error) × (r ≡ failed e)) ⊎ ((a : A) × (r ≡ value a))
Result-cases (value a) = inr (a, refl)
Result-cases (failed e) = inl (e, refl)

pub record MemDb (K : Type 0) : Type 1 where
  pub Db : Type 0
  pub empty : Db
  -- Txn(write), Insert and the end of the transaction, for an object whose index `id` has the
  -- given value, and whose other indexes have values or not
  pub insert : Bool → Option K → Bool → ℕ → Db → Option Error × Db
  -- First(table, "id", key)
  pub first : K → Db → Result (Option ℕ)
  -- Get(table, "id_prefix", "") and Get(table, "name_prefix", ""), run to their ends
  pub walk_id : Db → Result (List ℕ)
  pub walk_name : Db → Result (List ℕ)
  -- DeleteAll(table, "id", key), and DeleteAll over a prefix index with the empty prefix
  pub delete_all : K → Db → Result ℕ × Db
  pub delete_prefix : Db → Result ℕ × Db

pub record MemDbLaws {K : Type 0} ⦃e : Eq K⦄ (m : MemDb K) : Type 0 where
  -- what the index `id` holds
  pub find : K → MemDb.Db m → Option ℕ
  pub first-find : (k : K) (db : MemDb.Db m) → MemDb.first m k db ≡ value (find k db)
  pub find-empty : (k : K) → find k (MemDb.empty m) ≡ none
  -- a read transaction refuses to write
  pub insert-read :
      (k : Option K) (b : Bool) (p : ℕ) (db : MemDb.Db m)
      → ((MemDb.insert m false k b p db).0 ≢ none) × ((MemDb.insert m false k b p db).1 ≡ db)
  -- an object without the index `id` is refused
  pub insert-missing :
      (b : Bool) (p : ℕ) (db : MemDb.Db m)
      → ((MemDb.insert m true none b p db).0 ≢ none) × ((MemDb.insert m true none b p db).1 ≡ db)
  pub insert-accepts :
      (k : K) (p : ℕ) (db : MemDb.Db m) → (MemDb.insert m true (some k) true p db).0 ≡ none
  pub find-insert :
      (k j : K) (p : ℕ) (db : MemDb.Db m)
      → find j (MemDb.insert m true (some k) true p db).1 ≡ (if k == j then some p else find j db)
  pub find-delete_all :
      (k j : K) (db : MemDb.Db m)
      → find j (MemDb.delete_all m k db).1 ≡ (if k == j then none else find j db)
  pub delete_all-count :
      (k : K) (db : MemDb.Db m) → (MemDb.delete_all m k db).0 ≡ value (count_of (find k db))
  -- the walk over the index `id` meets the objects that it holds, and no other
  pub ids : MemDb.Db m → List ℕ
  pub walk_id-ids : (db : MemDb.Db m) → MemDb.walk_id m db ≡ value (ids db)
  pub ids_sound :
      (p : ℕ) (db : MemDb.Db m) → absent p (ids db) ≡ false → (k : K) × (find k db ≡ some p)
  pub ids_complete :
      (k : K) (p : ℕ) (db : MemDb.Db m) → find k db ≡ some p → absent p (ids db) ≡ false
  pub find-delete_prefix : (k : K) (db : MemDb.Db m) → find k (MemDb.delete_prefix m db).1 ≡ none
