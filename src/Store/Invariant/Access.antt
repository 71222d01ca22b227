-- ===== src/Store/Invariant/Access.antt =====
-- Lookups, the sweep of expired keys and EXPIRE's update (internal/store/store.go, expire.go) keep a
-- store well formed.
use dice_db_distributed_syst.Prelude.{
  ℕ, ◌<◌, ◌≡◌, refl, inl, inr, Bool, true, false, not, ◌&&◌, ◌||◌, Option, none, some, List, [],
  ◌∷◌, arith, if◌then◌else◌, if_both, Bool-cases, Option-cases, Str, nat_eq, str_eq,
}
use dice_db_distributed_syst.Prelude.Int.{ℤ}
use dice_db_distributed_syst.Table
use dice_db_distributed_syst.Store.State.{Store, touch_obj, set_unix_time_expiry}
use dice_db_distributed_syst.Store.Expiry.{has_expired, get_expiry}
use dice_db_distributed_syst.Store.Delete.{delete_key, del, del_by_ptr, del_cmd}
use dice_db_distributed_syst.Store.Access.{get_helper, get, get_del}
use dice_db_distributed_syst.Store.Sweep.{
  sweep_loop, delete_expired_keys, Flags, conclude, sub_commands_loop, no_flags, is_nil,
  ExpiryResult, evaluate_found, evaluate_and_set_expiry,
}
use dice_db_distributed_syst.Store.Invariant.{IsValid}
use dice_db_distributed_syst.Store.Invariant.Basic.{
  touch_obj-IsValid, delete_key-IsValid, put_time-IsValid, del-IsValid,
}

-- How a lookup ends: the key is absent, or has expired and is deleted, or is found.
pub data Lookup (now : ℤ) (k : Str) (touch : Bool) (s : Store) : Option ℕ × Store → Type 0 where
  absent : Table.get k s.store ≡ none → Lookup now k touch s (none, s)
  gone :
      (r : ℕ)
      → Table.get k s.store ≡ some r
      → has_expired now r s ≡ true
      → Lookup now k touch s (none, (delete_key del_cmd k (some r) s).1)
  found :
      (r : ℕ)
      → Table.get k s.store ≡ some r
      → has_expired now r s ≡ false
      → Lookup now k touch s (some r, if touch then touch_obj now r s else s)

pub get_helper-Lookup :
    (now : ℤ) (k : Str) (touch : Bool) (s : Store) → Lookup now k touch s (get_helper now k touch s)
unfolding get_helper
get_helper-Lookup now k true s = elim (Option-cases (Table.get k s.store)) [
  | inl e ↦ rw (e, get_helper) (absent e)
  | inr (r, e) ↦ elim (Bool-cases (has_expired now r s)) [
    | inl x ↦ rw (e, get_helper) (rw x (gone r e x))
    | inr x ↦ rw (e, get_helper) (rw x (found r e x))
  ]
]
get_helper-Lookup now k false s = elim (Option-cases (Table.get k s.store)) [
  | inl e ↦ rw (e, get_helper) (absent e)
  | inr (r, e) ↦ elim (Bool-cases (has_expired now r s)) [
    | inl x ↦ rw (e, get_helper) (rw x (gone r e x))
    | inr x ↦ rw (e, get_helper) (rw x (found r e x))
  ]
]

-- What the store keeps through a lookup, and that a pointer found is allocated.
Lookup-IsValid :
    {now : ℤ} {k : Str} {touch : Bool} {s : Store} {o : Option ℕ × Store}
    → Lookup now k touch s o
    → IsValid s
    → IsValid o.1
Lookup-IsValid (absent e) v = v
Lookup-IsValid {k = k} {s = s} (gone r e x) v = delete_key-IsValid del_cmd k r s v e
Lookup-IsValid {now = now} {touch = touch} {s = s} (found r e x) v =
    if_both IsValid touch (touch_obj-IsValid now r s v) v

-- A lookup keeps a store well formed, also where it deletes an expired key.
pub get_helper-IsValid :
    (now : ℤ) (k : Str) (touch : Bool) (s : Store)
    → IsValid s
    → IsValid (get_helper now k touch s).1
get_helper-IsValid now k touch s v = Lookup-IsValid (get_helper-Lookup now k touch s) v

Lookup-lt-next :
    {now : ℤ} {k : Str} {touch : Bool} {s : Store} {o : Option ℕ × Store} (r : ℕ)
    → Lookup now k touch s o
    → IsValid s
    → o.0 ≡ some r
    → r < o.1.next
Lookup-lt-next r (absent e) v h = cc
Lookup-lt-next r (gone p e x) v h = cc
Lookup-lt-next {now = now} {k = k} {touch = touch} {s = s} r (found p e x) v h =
    let q : r < s.next = ground (arith, v.allocated k p) in
    if_both (λ (t : Store). r < t.next) touch {x = touch_obj now p s} {y = s}
      (unfold touch_obj in q) q

pub get_del-IsValid :
    (now : ℤ) (cmd k : Str) (s : Store) → IsValid s → IsValid (get_del now cmd k s).1
unfolding get_del
get_del-IsValid now cmd k s v = elim (Option-cases (Table.get k s.store)) [
  | inl e ↦ rw (e, get_del) v
  | inr (r, e) ↦ rw (e, get_del) (delete_key-IsValid cmd k r s v e)
]

sweep_loop-IsValid :
    (now : ℤ) (l : List (Str × ℕ)) (s : Store) → IsValid s → IsValid (sweep_loop now l s)
unfolding sweep_loop del_by_ptr del
sweep_loop-IsValid now [] s v = v
sweep_loop-IsValid now ((k, r) ∷ l) s v = elim (Bool-cases (has_expired now r s)) [
  | inl x ↦ rw x (sweep_loop-IsValid now l _ (del-IsValid del_cmd k s v))
  | inr x ↦ rw x (sweep_loop-IsValid now l s v)
]

-- The sweep of expired keys keeps a store well formed.
pub delete_expired_keys-IsValid :
    (now : ℤ) (s : Store) → IsValid s → IsValid (delete_expired_keys now s)
unfolding delete_expired_keys
delete_expired_keys-IsValid now s v = sweep_loop-IsValid now s.store.m s v

-- The pointer that a lookup gives is allocated, in the store that it leaves.
pub get_helper-lt-next :
    (now : ℤ) (k : Str) (touch : Bool) (r : ℕ) (s : Store)
    → IsValid s
    → (get_helper now k touch s).0 ≡ some r
    → r < (get_helper now k touch s).1.next
get_helper-lt-next now k touch r s v h = Lookup-lt-next r (get_helper-Lookup now k touch s) v h

conclude-IsValid :
    (r : ℕ) (t : ℤ) (f : Option Flags) (s : Store)
    → IsValid s
    → r < s.next
    → IsValid (conclude r t f s).1
unfolding conclude set_unix_time_expiry
conclude-IsValid r t none s v room = v
conclude-IsValid r t (some f) s v room =
    let w = put_time-IsValid r t s v room in
    if_both (λ (p : ExpiryResult × Store). IsValid p.1) (not f.nx_cmd && f.gt_cmd && f.lt_cmd) v
      (if_both (λ (p : ExpiryResult × Store). IsValid p.1)
        (f.nx_cmd && (f.xx_cmd || f.gt_cmd || f.lt_cmd)) v
        (if_both (λ (p : ExpiryResult × Store). IsValid p.1) f.should_set w v))

pub evaluate_found-IsValid :
    (cs : List Str) (t : ℤ) (o : Option ℕ) (s : Store)
    → IsValid s
    → ((r : ℕ) → o ≡ some r → r < s.next)
    → IsValid (evaluate_found cs t o s).1
unfolding evaluate_found set_unix_time_expiry
evaluate_found-IsValid cs t none s v room = v
evaluate_found-IsValid cs t (some r) s v room =
    if_both (λ (p : ExpiryResult × Store). IsValid p.1) (is_nil cs)
      (put_time-IsValid r t s v (room r refl))
      (conclude-IsValid r t (sub_commands_loop (get_expiry r s) t cs no_flags) s v (room r refl))

-- EvaluateAndSetExpiry keeps a store well formed, whatever the sub-commands are.
pub evaluate_and_set_expiry-IsValid :
    (now : ℤ) (cs : List Str) (t : ℤ) (k : Str) (s : Store)
    → IsValid s
    → IsValid (evaluate_and_set_expiry now cs t k s).1
unfolding evaluate_and_set_expiry get
evaluate_and_set_expiry-IsValid now cs t k s v =
    evaluate_found-IsValid cs t (get_helper now k true s).0 _ (get_helper-IsValid now k true s v)
      (λ r. get_helper-lt-next now k true r s v)
