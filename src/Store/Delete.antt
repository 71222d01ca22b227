-- ===== src/Store/Delete.antt =====
-- Deletion in internal/store/store.go. The strategy's OnAccess does nothing.
use dice_db_distributed_syst.Prelude.{
  ℕ, Bool, true, false, Option, none, some, Str, codes, nat_eq, str_eq,
}
use dice_db_distributed_syst.Prelude.Int.{pos, ◌-ℤ◌}
use dice_db_distributed_syst.Table
use dice_db_distributed_syst.Store.State.{Store, notify_watch_manager}

-- deleteKey with WithDelCmd(cmd); the pointer may be nil.
unfoldable pub delete_key : Str → Str → Option ℕ → Store → Bool × Store
delete_key cmd k none s = (false, s)
delete_key cmd k (some r) s =
    let s' = record s {
      store = Table.delete k s.store;
      expires = Table.delete r s.expires;
      num_keys = s.num_keys -ℤ pos 1;
    } in
    (true, notify_watch_manager cmd k s')

-- Del
unfoldable pub del : Str → Str → Store → Bool × Store
del cmd k s = elim (Table.get k s.store) [
  | none ↦ (false, s)
  | some r ↦ delete_key cmd k (some r) s
]

-- delByPtr and DelByPtr
unfoldable pub del_by_ptr : Str → Str → Store → Bool × Store
del_by_ptr cmd k s = elim (Table.get k s.store) [
  | none ↦ (false, s)
  | some r ↦ delete_key cmd k (some r) s
]

-- getDefaultDelOptions
abbrev pub del_cmd : Str
del_cmd = codes "DEL"
