-- ===== src/Store/Invariant.antt =====
-- The well-formedness of a store (internal/store/store.go). The children prove that the operations
-- keep it.
pub mod Basic
pub mod Evict
pub mod Put
pub mod Access
use dice_db_distributed_syst.Prelude.{ℕ, ◌<◌, ◌≡◌, some, arith, Str, nat_eq, str_eq}
use dice_db_distributed_syst.Prelude.Int.{ℤ, pos}
use dice_db_distributed_syst.Table
use dice_db_distributed_syst.Table.{Distinct}
use dice_db_distributed_syst.Store.State.{Store}

-- The key count is the number of keys; every pointer is allocated; no two keys share an object.
pub record IsValid (s : Store) : Type 0 where
  pub keys : Distinct s.store.m
  pub times : Distinct s.expires.m
  pub counted : s.num_keys ≡ pos (Table.size s.store)
  pub allocated : (k : Str) (r : ℕ) → Table.get k s.store ≡ some r → r < s.next
  pub unshared :
      (k j : Str) (r : ℕ) → Table.get k s.store ≡ some r → Table.get j s.store ≡ some r → k ≡ j
  pub dated : (r : ℕ) (t : ℤ) → Table.get r s.expires ≡ some t → r < s.next
