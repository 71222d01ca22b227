-- ===== src/Store/Put.antt =====
-- putHelper, Put, PutAll and Rename of internal/store/store.go.
use dice_db_distributed_syst.Prelude.{
  ℕ, Bool, true, false, ◌&&◌, none, some, List, [], ◌∷◌, ltb, if◌then◌else◌, Str, codes, str_beq,
  nat_eq, str_eq,
}
use dice_db_distributed_syst.Prelude.Int.{ℤ, pos, ◌+ℤ◌, ◌-ℤ◌, ltb_ℤ}
use dice_db_distributed_syst.Table
use dice_db_distributed_syst.Store.State.{
  Store, PutOptions, default_put_options, touch_obj, notify_watch_manager,
}
use dice_db_distributed_syst.Store.Expiry.{has_expired}
use dice_db_distributed_syst.Store.Delete.{delete_key}
use dice_db_distributed_syst.Store.Evict.{should_evict, evict}

-- The key is there: KEEPTTL carries a positive expiry time over; the old pointer loses its own.
unfoldable pub replace_expiry : Bool → ℕ → ℕ → Store → Store
replace_expiry keep_ttl r current s =
    let kept : Table.RegMap ℕ ℤ = elim (Table.get current s.expires) [
      | none ↦ s.expires
      | some v ↦ if keep_ttl && ltb_ℤ (pos 0) v then Table.put r v s.expires else s.expires
    ] in
    record s { expires = Table.delete current kept }

-- The key is new: evict first if the strategy says so, then count it.
unfoldable pub make_room : ℤ → Store → Store
make_room now s =
    let n = should_evict s in
    let s' = if ltb 0 n then (evict now n s).1 else s in
    record s' { num_keys = s'.num_keys +ℤ pos 1 }

unfoldable pub put_helper : ℤ → Str → ℕ → PutOptions → Store → Store
unfolding replace_expiry make_room
put_helper now k r options s =
    let touched = touch_obj now r s in
    let ready : Store = elim (Table.get k touched.store) [
      | some current ↦ replace_expiry options.keep_ttl r current touched
      | none ↦ make_room now touched
    ] in
    notify_watch_manager options.put_cmd k (record ready { store = Table.put k r ready.store })

unfoldable pub put : ℤ → Str → ℕ → Store → Store
unfolding put_helper
put now k r s = put_helper now k r default_put_options s

-- PutAll, over the map's entries in some order
unfoldable pub put_all : ℤ → List (Str × ℕ) → Store → Store
unfolding put_helper
put_all now [] s = s
put_all now ((k, r) ∷ l) s = put_all now l (put_helper now k r default_put_options s)

abbrev pub rename_cmd : Str
rename_cmd = codes "RENAME"

unfoldable pub rename : ℤ → Str → Str → Store → Bool × Store
rename now source_key dest_key s =
    if str_beq source_key dest_key then (true, s) else elim (Table.get source_key s.store) [
      | none ↦ (false, s)
      | some r ↦
          if has_expired now r s
          then (false, (delete_key rename_cmd source_key (some r) s).1)
          else let s₁ = put_helper now dest_key r default_put_options s in
            let s₂ = record s₁ {
              store = Table.delete source_key s₁.store;
              num_keys = s₁.num_keys -ℤ pos 1;
            } in
            (true, notify_watch_manager rename_cmd source_key s₂)
    ]
