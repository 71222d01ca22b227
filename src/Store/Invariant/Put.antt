-- ===== src/Store/Invariant/Put.antt =====
-- Insertion (putHelper and Rename of internal/store/store.go) keeps a store well formed.
use dice_db_distributed_syst.Prelude.{
  ℕ, ◌<◌, ◌≡◌, inl, inr, Bool, ◌&&◌, none, some, arith, ltb, Bool-cases, Option-cases, Str,
  str_beq_iff, nat_eq, str_eq,
}
use dice_db_distributed_syst.Prelude.Int.{ℤ, pos, ◌+ℤ◌, ltb_ℤ}
use dice_db_distributed_syst.Table
use dice_db_distributed_syst.Table.Laws.{get-put, size-put, Distinct-upsert}
use dice_db_distributed_syst.Store.State.{Store, PutOptions, touch_obj}
use dice_db_distributed_syst.Store.Expiry.{del_expiry}
use dice_db_distributed_syst.Store.Evict.{should_evict, evict}
use dice_db_distributed_syst.Store.Put.{replace_expiry, make_room, put_helper}
use dice_db_distributed_syst.Store.Invariant.{IsValid}
use dice_db_distributed_syst.Store.Invariant.Basic.{
  touch_obj-IsValid, notify-IsValid, put_time-IsValid, del_expiry-IsValid,
}
use dice_db_distributed_syst.Store.Invariant.Evict.{
  evict-IsValid, next-evict, get-evict_of_none, get-evict-some,
}

-- No key but `k` holds the object.
abbrev pub IsFreeFor : Str → ℕ → Store → Type 0
IsFreeFor k r s = (j : Str) → Table.get j s.store ≡ some r → j ≡ k

module _ (k : Str) (r : ℕ) (s : Store) (v : IsValid s) (room : r < s.next)
    (free : IsFreeFor k r s) where
  insert_present-IsValid :
      (p : ℕ) → Table.get k s.store ≡ some p → IsValid (record s { store = Table.put k r s.store })
  insert_present-IsValid p e = record {
    keys = unfold Table.put in Distinct-upsert k r s.store.m v.keys;
    times = v.times;
    counted = ground (arith, v.counted, size-put k r s.store);
    allocated = λ j q f. ground (arith, get-put k j r s.store, v.allocated j q);
    unshared = λ i j q f g. ground (
      arith,
      get-put k i r s.store,
      get-put k j r s.store,
      v.unshared i j q,
      free i,
      free j,
      str_beq_iff k i,
      str_beq_iff k j,
    );
    dated = v.dated;
  }

  insert_new-IsValid :
      Table.get k s.store ≡ none
      → IsValid (record s { store = Table.put k r s.store; num_keys = s.num_keys +ℤ pos 1 })
  unfolding ◌+ℤ◌
  insert_new-IsValid e = record {
    keys = unfold Table.put in Distinct-upsert k r s.store.m v.keys;
    times = v.times;
    counted = ground (arith, v.counted, size-put k r s.store);
    allocated = λ j q f. ground (arith, get-put k j r s.store, v.allocated j q);
    unshared = λ i j q f g. ground (
      arith,
      get-put k i r s.store,
      get-put k j r s.store,
      v.unshared i j q,
      free i,
      free j,
      str_beq_iff k i,
      str_beq_iff k j,
    );
    dated = v.dated;
  }

-- The expiry table after KEEPTTL has had its say.
kept-IsValid :
    (b : Bool) (r p : ℕ) (s : Store) → IsValid s → r < s.next → IsValid (replace_expiry b r p s)
unfolding replace_expiry
kept-IsValid b r p s v room = elim (Option-cases (Table.get p s.expires)) [
  | inl e ↦ rw (e, replace_expiry) (unfold del_expiry in del_expiry-IsValid p s v)
  | inr (t, e) ↦ elim (Bool-cases (b && ltb_ℤ (pos 0) t)) [
    | inl y ↦
        rw (e, replace_expiry)
          (rw y (unfold del_expiry in del_expiry-IsValid p _ (put_time-IsValid r t s v room)))
    | inr n ↦ rw (e, replace_expiry) (rw n (unfold del_expiry in del_expiry-IsValid p s v))
  ]
]

-- Making room for a key that is not in the table, and putting the key in.
make_room-put-IsValid :
    (now : ℤ) (k : Str) (r : ℕ) (s : Store)
    → IsValid s
    → r < s.next
    → IsFreeFor k r s
    → Table.get k s.store ≡ none
    → IsValid (record (make_room now s) { store = Table.put k r (make_room now s).store })
unfolding make_room
make_room-put-IsValid now k r s v room free e = elim (Bool-cases (ltb 0 (should_evict s))) [
  | inl y ↦
      let n = should_evict s in
      rw y (
        insert_new-IsValid k r (evict now n s).1 (evict-IsValid now n s v)
          (omega (arith, next-evict now n s)) (λ j q. free j (get-evict-some now n j r s q))
          (get-evict_of_none now n k s e))
  | inr n ↦ rw n (insert_new-IsValid k r s v room free e)
]

-- A put of an allocated object that no other key holds keeps the store well formed (key count,
-- tables, pointers), with or without eviction and with or without KEEPTTL.
pub put_helper-IsValid :
    (now : ℤ) (k : Str) (r : ℕ) (options : PutOptions) (s : Store)
    → IsValid s
    → r < s.next
    → IsFreeFor k r s
    → IsValid (put_helper now k r options s)
unfolding touch_obj put_helper
put_helper-IsValid now k r options s v room free =
    let v' = touch_obj-IsValid now r s v in
    elim (Option-cases (Table.get k s.store)) [
      | inl e ↦
          rw (e, put_helper)
            (notify-IsValid options.put_cmd k _
              (make_room-put-IsValid now k r (touch_obj now r s) v' room free e))
      | inr (p, e) ↦
          rw (e, put_helper)
            (notify-IsValid options.put_cmd k _ (
              insert_present-IsValid k r (replace_expiry options.keep_ttl r p (touch_obj now r s))
                (kept-IsValid options.keep_ttl r p (touch_obj now r s) v' room)
                (unfold replace_expiry in room) (unfold replace_expiry in free) p
                (unfold replace_expiry in e)))
    ]
