-- ===== src/Tests/Stores.antt =====
-- The theorems on the store (internal/store) at the store of the tests.
use dice_db_distributed_syst.Prelude.{
  ◌≡◌, refl, true, false, none, some, [], ◌∷◌, arith, if◌then◌else◌, length, codes, str_beq, nat_eq,
  str_eq,
}
use dice_db_distributed_syst.Prelude.Int.{pos}
use dice_db_distributed_syst.Table
use dice_db_distributed_syst.Store.State.{default_put_options, touch_obj, Store}
use dice_db_distributed_syst.Store.Evict.{scan, scan_item, victims}
use dice_db_distributed_syst.Store.Fields.{is_victim}
use dice_db_distributed_syst.Store.Evict.Order.{victims_least_recent, Below}
use dice_db_distributed_syst.Store.Put.{put_helper}
use dice_db_distributed_syst.Store.Access.{get_helper}
use dice_db_distributed_syst.Store.Sweep.{delete_expired_keys, evaluate_and_set_expiry}
use dice_db_distributed_syst.Store.Invariant.{IsValid}
use dice_db_distributed_syst.Store.View.{view, view_at}
use dice_db_distributed_syst.Store.View.Basic.{get_helper-view}
use dice_db_distributed_syst.Store.View.Sweep.{slot, is_past_slot, delete_expired_keys-slot}
use dice_db_distributed_syst.Store.View.Write.{IsFree, put_entry, is_evicted, put_helper-view}
use dice_db_distributed_syst.Store.View.Expire.{after_expire, evaluate_and_set_expiry-view}
use dice_db_distributed_syst.Tests.{demo, demo-IsValid, key_n, key_t}

-- The store with one more object, which no key holds yet.
abbrev wider : Store
wider = record demo { next = 3 }

wider-IsValid : IsValid wider
wider-IsValid = record {
  keys = demo-IsValid.keys;
  times = demo-IsValid.times;
  counted = refl;
  allocated = λ k r h. omega (arith, demo-IsValid.allocated k r h);
  unshared = demo-IsValid.unshared;
  dated = λ r t h. omega (arith, demo-IsValid.dated r t h);
}

wider-IsFree : IsFree 2 wider
wider-IsFree j h = absurd (omega (arith, demo-IsValid.allocated j 2 h))

put_helper-view_example :
    view (pos 100) key_t (put_helper (pos 100) key_n 2 default_put_options wider) ≡ (
      if str_beq key_n key_t
      then put_entry (pos 100) key_n 2 default_put_options wider
      else if is_evicted key_n key_t (touch_obj (pos 100) 2 wider)
      then none
      else view (pos 100) key_t wider)
put_helper-view_example =
    put_helper-view (pos 100) key_n key_t 2 default_put_options wider wider-IsValid wider-IsFree

spared : is_victim key_n (victims 1 demo) ≡ false
unfolding is_victim str_beq scan scan_item
spared = refl

here : Table.get key_n demo.store ≡ some 0
unfolding Table.get Table.load str_beq
here = refl

victims_least_recent_example : (length (victims 1 demo) ≡ 1) × Below (pos 20) (victims 1 demo)
victims_least_recent_example = victims_least_recent 1 demo key_n 0 here spared

delete_expired_keys-slot_example :
    slot key_n (delete_expired_keys (pos 5000) demo)
    ≡ (if is_past_slot (pos 5000) (slot key_n demo) then none else slot key_n demo)
delete_expired_keys-slot_example = delete_expired_keys-slot (pos 5000) key_n demo demo-IsValid

get_helper-view_example :
    (view (pos 5000) key_t (get_helper (pos 5000) key_n true demo).1 ≡ view (pos 5000) key_t demo)
    × (view (pos 5000) key_n demo
        ≡ view_at (pos 5000) demo.objs demo.expires (get_helper (pos 5000) key_n true demo).0)
get_helper-view_example = get_helper-view (pos 5000) key_n key_t true demo demo-IsValid

evaluate_and_set_expiry-view_example :
    ((evaluate_and_set_expiry (pos 100) (codes "GT" ∷ []) (pos 9000) key_n demo).0
      ≡ (after_expire (view (pos 100) key_n demo) (pos 100) (pos 9000) (codes "GT" ∷ [])).0)
    × (view
          (pos 100)
          key_n
          (evaluate_and_set_expiry (pos 100) (codes "GT" ∷ []) (pos 9000) key_n demo).1
        ≡ (if str_beq key_n key_n
            then (after_expire (view (pos 100) key_n demo) (pos 100) (pos 9000) (codes "GT" ∷ [])).1
            else view (pos 100) key_n demo))
evaluate_and_set_expiry-view_example =
    evaluate_and_set_expiry-view (pos 100) (pos 9000) (codes "GT" ∷ []) key_n key_n demo
      demo-IsValid
