-- ===== src/Store/View.antt =====
-- The abstract view of a store (internal/store): a partial map from keys to entries, at a time.
-- What has expired is not there, whether or not its key has been removed yet.
pub mod Basic
pub mod Sweep
pub mod Write
pub mod Expire
pub mod Create
use dice_db_distributed_syst.Prelude.{
  ℕ, Bool, false, Option, none, some, arith, if◌then◌else◌, Str, nat_eq, str_eq,
}
use dice_db_distributed_syst.Prelude.Int.{ℤ, leb_ℤ}
use dice_db_distributed_syst.Table
use dice_db_distributed_syst.Table.{RegMap}
use dice_db_distributed_syst.Object.{Obj, ObjectType, Value}
use dice_db_distributed_syst.Store.State.{Store}

pub record Entry : Type 0 where
  pub value : Value
  pub type : ObjectType
  pub expiry : Option ℤ

abbrev pub is_past : ℤ → Option ℤ → Bool
is_past now none = false
is_past now (some t) = leb_ℤ t now

-- The entry of an object under its expiry, if that is not past.
abbrev pub live : ℤ → Obj → Option ℤ → Option Entry
live now o t =
    if is_past now t then none else some (record { value = o.value; type = o.type; expiry = t })

abbrev pub view_at : ℤ → (ℕ → Obj) → RegMap ℕ ℤ → Option ℕ → Option Entry
view_at now objs times none = none
view_at now objs times (some r) = live now (objs r) (Table.get r times)

abbrev pub view : ℤ → Str → Store → Option Entry
view now k s = view_at now s.objs s.expires (Table.get k s.store)
