-- ===== src/Store/View/Sweep.antt =====
-- The active removal of expired keys (internal/store/expire.go) removes exactly what has expired.
use dice_db_distributed_syst.Prelude.{
  ℕ, ◌≡◌, refl, sym, ap, ◌∙◌, inl, inr, Bool, false, Option, none, some, List, [], ◌∷◌, arith,
  if◌then◌else◌, ==_iff, Bool-cases, Option-cases, Str, str_beq, str_beq_iff, nat_eq, str_eq,
}
use dice_db_distributed_syst.Prelude.Int.{ℤ}
use dice_db_distributed_syst.Table
use dice_db_distributed_syst.Table.{load, Distinct}
use dice_db_distributed_syst.Table.Laws.{get-delete}
use dice_db_distributed_syst.Object.{Obj}
use dice_db_distributed_syst.Store.State.{Store}
use dice_db_distributed_syst.Store.Expiry.{has_expired}
use dice_db_distributed_syst.Store.Delete.{delete_key, del, del_by_ptr, del_cmd}
use dice_db_distributed_syst.Store.Sweep.{sweep_loop, delete_expired_keys}
use dice_db_distributed_syst.Store.Fields.{get-del, objs-del, delete_key-SameTables, without_key}
use dice_db_distributed_syst.Store.Invariant.{IsValid}
use dice_db_distributed_syst.Store.Invariant.Basic.{del-IsValid}
use dice_db_distributed_syst.Store.View.{Entry, view, live, is_past}
use dice_db_distributed_syst.Store.View.Basic.{has_expired-eq-is_past}

-- A key's pointer with its expiry.
abbrev pub slot_at : Table.RegMap ℕ ℤ → Option ℕ → Option (ℕ × Option ℤ)
slot_at times none = none
slot_at times (some r) = some (r, Table.get r times)

abbrev pub slot : Str → Store → Option (ℕ × Option ℤ)
slot k s = slot_at s.expires (Table.get k s.store)

abbrev pub is_past_slot : ℤ → Option (ℕ × Option ℤ) → Bool
is_past_slot now none = false
is_past_slot now (some (r, t)) = is_past now t

abbrev pub view_slot : ℤ → (ℕ → Obj) → Option (ℕ × Option ℤ) → Option Entry
view_slot now objs none = none
view_slot now objs (some (r, t)) = live now (objs r) t

view-eq-view_slot : (now : ℤ) (k : Str) (s : Store) → view now k s ≡ view_slot now s.objs (slot k s)
view-eq-view_slot now k s = ground arith

slot-without_key :
    (k j : Str) (r : ℕ) (s : Store)
    → IsValid s
    → Table.get k s.store ≡ some r
    → slot j (without_key k r s) ≡ (if str_beq k j then none else slot j s)
slot-without_key k j r s v e = elim (Option-cases (Table.get j s.store)) [
  | inl f ↦ ground (arith, get-delete k j s.store)
  | inr (p, f) ↦ ground (
    arith,
    get-delete k j s.store,
    get-delete r p s.expires,
    v.unshared k j r,
    str_beq_iff k j,
    ==_iff r p,
  )
]

slot-del :
    (cmd k j : Str) (s : Store)
    → IsValid s
    → slot j (del cmd k s).1 ≡ (if str_beq k j then none else slot j s)
unfolding del
slot-del cmd k j s v = elim (Option-cases (Table.get k s.store)) [
  | inl e ↦ rw (e, del) (ground (arith, str_beq_iff k j))
  | inr (r, e) ↦
      rw (e, del)
        (let h = delete_key-SameTables cmd k s r in
          let same : slot j (delete_key cmd k (some r) s).1 ≡ slot j (without_key k r s) =
            λ i. slot_at (h.expires i) (Table.get j (h.store i)) in
          same ∙ slot-without_key k j r s v e)
]

get-of-slot :
    (j : Str) (s t : Store) → slot j s ≡ slot j t → Table.get j s.store ≡ Table.get j t.store
get-of-slot j s t h = ground arith

abbrev swept : ℤ → Option (ℕ × Option ℤ) → Option ℕ → Option (ℕ × Option ℤ)
swept now o none = o
swept now o (some r) = if is_past_slot now o then none else o

del_by_ptr-eq-del : (cmd k : Str) (s : Store) → del_by_ptr cmd k s ≡ del cmd k s
unfolding del_by_ptr del
del_by_ptr-eq-del cmd k s = refl

sweep_loop-slot :
    (now : ℤ) (l : List (Str × ℕ)) (j : Str) (s : Store)
    → IsValid s
    → Distinct l
    → ((i : Str) (r : ℕ) → load i l ≡ some r → Table.get i s.store ≡ some r)
    → slot j (sweep_loop now l s) ≡ swept now (slot j s) (load j l)
unfolding sweep_loop load
sweep_loop-slot now [] j s v d present = refl
sweep_loop-slot now ((k, r) ∷ l) j s v d present = elim (Bool-cases (has_expired now r s)) [
  | inl x ↦
      let s' = (del del_cmd k s).1 in
      let kept : (i : Str) (p : ℕ) → load i l ≡ some p → Table.get i s'.store ≡ some p =
        λ i p h. ground (arith, present i p, get-del del_cmd k s i, str_beq_iff k i, d.0) in
      let ih = sweep_loop-slot now l j s' (del-IsValid del_cmd k s v) d.1 kept in
      rw (x, sweep_loop)
        (rw del_by_ptr-eq-del (
          ground (
            arith,
            ih,
            d.0,
            slot-del del_cmd k j s v,
            present k r,
            present j r,
            str_beq_iff k j,
            str_beq_iff k k,
            has_expired-eq-is_past now r s,
          )))
  | inr x ↦
      let kept : (i : Str) (p : ℕ) → load i l ≡ some p → Table.get i s.store ≡ some p =
        λ i p h. ground (arith, present i p, str_beq_iff k i, d.0) in
      let ih = sweep_loop-slot now l j s v d.1 kept in
      rw (x, sweep_loop)
        (ground (
          arith,
          ih,
          d.0,
          present k r,
          str_beq_iff k j,
          str_beq_iff k k,
          has_expired-eq-is_past now r s,
        ))
]

swept_get :
    (now : ℤ) (times : Table.RegMap ℕ ℤ) (o : Option ℕ)
    → swept now (slot_at times o) o
      ≡ (if is_past_slot now (slot_at times o) then none else slot_at times o)
swept_get now times none = refl
swept_get now times (some r) = refl

view_slot_past :
    (now : ℤ) (objs : ℕ → Obj) (o : Option (ℕ × Option ℤ))
    → view_slot now objs (if is_past_slot now o then none else o) ≡ view_slot now objs o
view_slot_past now objs none = refl
view_slot_past now objs (some (r, t)) = ground arith

load_self :
    (l : List (Str × ℕ)) (i : Str) (r : ℕ) (s : Store)
    → s.store.m ≡ l
    → load i l ≡ some r
    → Table.get i s.store ≡ some r
unfolding Table.get
load_self l i r s e h = rw e h

-- On a well-formed store the sweep removes a key with its expiry time exactly if that time is not
-- later than the clock; every other key keeps its object and expiry time.
pub delete_expired_keys-slot :
    (now : ℤ) (j : Str) (s : Store)
    → IsValid s
    → slot j (delete_expired_keys now s) ≡ (if is_past_slot now (slot j s) then none else slot j s)
unfolding delete_expired_keys
delete_expired_keys-slot now j s v =
    sweep_loop-slot now s.store.m j s v v.keys (λ i r h. load_self s.store.m i r s refl h)
    ∙ (unfold Table.get in swept_get now s.expires (Table.load j s.store.m))

objs-sweep_loop : (now : ℤ) (l : List (Str × ℕ)) (s : Store) → (sweep_loop now l s).objs ≡ s.objs
unfolding sweep_loop
objs-sweep_loop now [] s = refl
objs-sweep_loop now ((k, r) ∷ l) s = elim (Bool-cases (has_expired now r s)) [
  | inl x ↦
      rw (x, sweep_loop)
        (rw del_by_ptr-eq-del (objs-sweep_loop now l (del del_cmd k s).1 ∙ objs-del del_cmd k s))
  | inr x ↦ rw (x, sweep_loop) (objs-sweep_loop now l s)
]

-- The sweep of expired keys on a well-formed store changes nothing that a client can see.
pub delete_expired_keys-view :
    (now : ℤ) (j : Str) (s : Store)
    → IsValid s
    → view now j (delete_expired_keys now s) ≡ view now j s
unfolding delete_expired_keys
delete_expired_keys-view now j s v =
    view-eq-view_slot now j (delete_expired_keys now s)
    ∙ ap (λ objs. view_slot now objs (slot j (delete_expired_keys now s)))
        (objs-sweep_loop now s.store.m s)
    ∙ ap (view_slot now s.objs) (delete_expired_keys-slot now j s v)
    ∙ view_slot_past now s.objs (slot j s)
    ∙ sym (view-eq-view_slot now j s)
