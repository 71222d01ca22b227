-- ===== src/Store/Invariant/Basic.antt =====
-- The operations on one object or one key keep a store well formed.
use dice_db_distributed_syst.Prelude.{
  ℕ, suc, ◌<◌, ◌≡◌, inl, inr, some, arith, ==_iff, Bool-cases, Option-cases, Str, nat_eq, str_eq,
}
use dice_db_distributed_syst.Prelude.Int.{ℤ, pos, ◌-ℤ◌, leb_ℤ}
use dice_db_distributed_syst.Table
use dice_db_distributed_syst.Table.{RegMap, Distinct}
use dice_db_distributed_syst.Table.Laws.{
  get-put, get-delete, size-delete, Distinct-upsert, Distinct-remove,
}
use dice_db_distributed_syst.Object.{Obj, Value, ObjectType}
use dice_db_distributed_syst.Store.State.{
  Store, write_obj, touch_obj, new_obj, notify_watch_manager,
}
use dice_db_distributed_syst.Store.Expiry.{del_expiry}
use dice_db_distributed_syst.Store.Delete.{delete_key, del}
use dice_db_distributed_syst.Store.Invariant.{IsValid}

pub touch_obj-IsValid : (now : ℤ) (r : ℕ) (s : Store) → IsValid s → IsValid (touch_obj now r s)
unfolding touch_obj
touch_obj-IsValid now r s v = record {
  keys = v.keys;
  times = v.times;
  counted = v.counted;
  allocated = v.allocated;
  unshared = v.unshared;
  dated = v.dated;
}

pub notify-IsValid : (cmd k : Str) (s : Store) → IsValid s → IsValid (notify_watch_manager cmd k s)
unfolding notify_watch_manager
notify-IsValid cmd k s v = elim (Option-cases s.watch) [
  | inl e ↦ simp (e, notify_watch_manager) v
  | inr (sent, e) ↦
      simp (e, notify_watch_manager)
        (record {
          keys = v.keys;
          times = v.times;
          counted = v.counted;
          allocated = v.allocated;
          unshared = v.unshared;
          dated = v.dated;
        })
]

pub put_time-IsValid :
    (r : ℕ) (t : ℤ) (s : Store)
    → IsValid s
    → r < s.next
    → IsValid (record s { expires = Table.put r t s.expires })
unfolding Table.put
put_time-IsValid r t s v h = record {
  keys = v.keys;
  times = Distinct-upsert r t s.expires.m v.times;
  counted = v.counted;
  allocated = v.allocated;
  unshared = v.unshared;
  dated = λ p u e. ground (arith, get-put r p t s.expires, v.dated p u, ==_iff r p);
}

pub del_expiry-IsValid : (r : ℕ) (s : Store) → IsValid s → IsValid (del_expiry r s)
unfolding del_expiry Table.delete
del_expiry-IsValid r s v = record {
  keys = v.keys;
  times = Distinct-remove r s.expires.m v.times;
  counted = v.counted;
  allocated = v.allocated;
  unshared = v.unshared;
  dated = λ p u e. ground (arith, get-delete r p s.expires, v.dated p u, ==_iff r p);
}

pub delete_key-IsValid :
    (cmd k : Str) (r : ℕ) (s : Store)
    → IsValid s
    → Table.get k s.store ≡ some r
    → IsValid (delete_key cmd k (some r) s).1
unfolding delete_key ◌-ℤ◌
delete_key-IsValid cmd k r s v here = notify-IsValid cmd k _ (record {
  keys = unfold Table.delete in Distinct-remove k s.store.m v.keys;
  times = unfold Table.delete in Distinct-remove r s.expires.m v.times;
  counted = ground (arith, v.counted, size-delete k s.store v.keys);
  allocated = λ j p e. ground (arith, get-delete k j s.store, v.allocated j p);
  unshared =
      λ i j p e f. ground (arith, get-delete k i s.store, get-delete k j s.store, v.unshared i j p);
  dated = λ p t e. ground (arith, get-delete r p s.expires, v.dated p t, ==_iff r p);
})

pub del-IsValid : (cmd k : Str) (s : Store) → IsValid s → IsValid (del cmd k s).1
unfolding del
del-IsValid cmd k s v = elim (Option-cases (Table.get k s.store)) [
  | inl e ↦ rw (e, del) v
  | inr (r, e) ↦ rw (e, del) (delete_key-IsValid cmd k r s v e)
]

-- A fresh object is in no table yet.
fresh-IsValid :
    (o : Obj) (s : Store)
    → IsValid s
    → IsValid (write_obj s.next o (record s { next = suc s.next }))
unfolding write_obj
fresh-IsValid o s v = record {
  keys = v.keys;
  times = v.times;
  counted = v.counted;
  allocated = λ k r e. omega (arith, v.allocated k r e);
  unshared = v.unshared;
  dated = λ r t e. omega (arith, v.dated r t e);
}

pub new_obj-IsValid :
    (now : ℤ) (value : Value) (ms : ℤ) (type : ObjectType) (s : Store)
    → IsValid s
    → IsValid (new_obj now value ms type s).1
unfolding new_obj
new_obj-IsValid now value ms type s v = elim (Bool-cases (leb_ℤ (pos 0) ms)) [
  | inl e ↦
      rw e (put_time-IsValid s.next _ _ (fresh-IsValid _ s v) (unfold write_obj in omega arith))
  | inr e ↦ rw e (fresh-IsValid _ s v)
]
