-- ===== src/Store/Expiry.antt =====
-- internal/store/expire.go: reading and removing expiry times.
use dice_db_distributed_syst.Prelude.{ℕ, Bool, false, Option, none, some, nat_eq, str_eq}
use dice_db_distributed_syst.Prelude.Int.{ℤ, leb_ℤ}
use dice_db_distributed_syst.Table
use dice_db_distributed_syst.Store.State.{Store}

unfoldable pub get_expiry : ℕ → Store → Option ℤ
get_expiry r s = Table.get r s.expires

unfoldable pub del_expiry : ℕ → Store → Store
del_expiry r s = record s { expires = Table.delete r s.expires }

unfoldable pub has_expired : ℤ → ℕ → Store → Bool
has_expired now r s = elim (Table.get r s.expires) [ none ↦ false | some exp ↦ leb_ℤ exp now ]
