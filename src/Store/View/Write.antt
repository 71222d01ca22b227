-- ===== src/Store/View/Write.antt =====
-- Insertion (putHelper of internal/store/store.go) against the view of a store, eviction included.
use dice_db_distributed_syst.Prelude.{
  ℕ, zero, suc, ◌≡◌, refl, ap, ◌∙◌, ◌≢◌, inl, inr, Bool, false, ◌&&◌, Option, none, some, List, [],
  ◌∷◌, arith, ltb, if◌then◌else◌, ==_iff, Bool-cases, Option-cases, Str, str_beq, str_beq_iff,
  nat_eq, str_eq,
}
use dice_db_distributed_syst.Prelude.Int.{ℤ, pos, ◌+ℤ◌, ltb_ℤ}
use dice_db_distributed_syst.Table
use dice_db_distributed_syst.Table.Laws.{get-put, get-delete}
use dice_db_distributed_syst.Store.State.{Store, PutOptions, touch_obj}
use dice_db_distributed_syst.Store.Delete.{del}
use dice_db_distributed_syst.Store.Evict.{
  EvictionItem, evict_cmd, scan, scan_item, del_victims, victims, evict, should_evict,
}
use dice_db_distributed_syst.Store.Put.{replace_expiry, make_room, put_helper}
use dice_db_distributed_syst.Store.Fields.{
  delete_key-SameTables, get-del, is_victim, notify-SameTables, objs-del_victims,
}
use dice_db_distributed_syst.Store.Invariant.{IsValid}
use dice_db_distributed_syst.Store.Invariant.Basic.{del-IsValid, touch_obj-IsValid}
use dice_db_distributed_syst.Store.View.{Entry, view, live}
use dice_db_distributed_syst.Store.View.Basic.{view-del, view-SameTables, view-touch_obj}

-- No key holds the object.
abbrev pub IsFree : ℕ → Store → Type 0
IsFree r s = (j : Str) → Table.get j s.store ≢ some r

time-del :
    (cmd k : Str) (r : ℕ) (s : Store)
    → IsFree r s
    → Table.get r (del cmd k s).1.expires ≡ Table.get r s.expires
unfolding del
time-del cmd k r s free = elim (Option-cases (Table.get k s.store)) [
  | inl e ↦ rw (e, del)
  | inr (p, e) ↦
      rw (e, del)
        (ap (Table.get r) (delete_key-SameTables cmd k s p).expires
          ∙ ground (arith, get-delete p r s.expires, ==_iff p r, free k))
]

del-IsFree : (cmd k : Str) (r : ℕ) (s : Store) → IsFree r s → IsFree r (del cmd k s).1
del-IsFree cmd k r s free j h = free j (ground (arith, get-del cmd k s j))

view-del_victims :
    (now : ℤ) (h : List EvictionItem) (j : Str) (s : Store)
    → IsValid s
    → view now j (del_victims h s) ≡ (if is_victim j h then none else view now j s)
unfolding del_victims is_victim
view-del_victims now [] j s v = refl
view-del_victims now (x ∷ h) j s v =
    view-del_victims now h j (del evict_cmd x.key s).1 (del-IsValid evict_cmd x.key s v)
    ∙ ground (arith, view-del now x.key s v evict_cmd j)

time-del_victims :
    (h : List EvictionItem) (r : ℕ) (s : Store)
    → IsFree r s
    → Table.get r (del_victims h s).expires ≡ Table.get r s.expires
unfolding del_victims
time-del_victims [] r s free = refl
time-del_victims (x ∷ h) r s free =
    time-del_victims h r _ (del-IsFree evict_cmd x.key r s free) ∙ time-del evict_cmd x.key r s free

scan-zero : (s : Store) (l : List (Str × ℕ)) → scan 0 s l [] ≡ []
unfolding scan scan_item
scan-zero s [] = refl
scan-zero s (x ∷ l) = scan-zero s l

-- Eviction hides the victims and nothing else.
pub view-evict :
    (now : ℤ) (n : ℕ) (j : Str) (s : Store)
    → IsValid s
    → view now j (evict now n s).1 ≡ (if is_victim j (victims n s) then none else view now j s)
unfolding evict
view-evict now zero j s v = rw (scan-zero s s.store.m) (unfold is_victim in refl)
view-evict now (suc n) j s v = view-del_victims now (victims (suc n) s) j s v

objs-evict : (now : ℤ) (n : ℕ) (s : Store) → (evict now n s).1.objs ≡ s.objs
unfolding evict
objs-evict now zero s = refl
objs-evict now (suc n) s = objs-del_victims (victims (suc n) s) s

time-evict :
    (now : ℤ) (n r : ℕ) (s : Store)
    → IsFree r s
    → Table.get r (evict now n s).1.expires ≡ Table.get r s.expires
unfolding evict
time-evict now zero r s free = refl
time-evict now (suc n) r s free = time-del_victims (victims (suc n) s) r s free

pub no_victims : (n : ℕ) (j : Str) (s : Store) → ltb 0 n ≡ false → is_victim j (victims n s) ≡ false
unfolding is_victim
no_victims zero j s h = rw (scan-zero s s.store.m)
no_victims (suc n) j s h = absurd (ground arith)

-- The expiry time of a key after a put: KEEPTTL takes a positive one over from the replaced object.
abbrev pub ttl_after : Bool → Option ℤ → Option (Option ℤ) → Option ℤ
ttl_after keep own none = own
ttl_after keep own (some none) = own
ttl_after keep own (some (some t)) = if keep && ltb_ℤ (pos 0) t then some t else own

abbrev pub replaced : Str → Store → Option (Option ℤ)
replaced k s = elim (Table.get k s.store) [ none ↦ none | some p ↦ some (Table.get p s.expires) ]

-- Whether a put of a key removes another key, to make room.
abbrev pub is_evicted : Str → Str → Store → Bool
is_evicted k j s = elim (Table.get k s.store) [
  | none ↦ is_victim j (victims (should_evict s) s)
  | some _ ↦ false
]

module _ (b : Bool) (r p : ℕ) where
  time-replace_self :
      (s : Store)
      → p ≢ r
      → Table.get r (replace_expiry b r p s).expires
        ≡ ttl_after b (Table.get r s.expires) (some (Table.get p s.expires))
  unfolding replace_expiry
  time-replace_self s h = elim (Option-cases (Table.get p s.expires)) [
    | inl e ↦ rw (e, replace_expiry) (ground (arith, get-delete p r s.expires, ==_iff p r))
    | inr (t, e) ↦ elim (Bool-cases (b && ltb_ℤ (pos 0) t)) [
      | inl y ↦
          rw (e, replace_expiry)
            (rw y (
              ground (
                arith,
                get-delete p r (Table.put r t s.expires),
                get-put r r t s.expires,
                ==_iff p r,
                ==_iff r r,
              )))
      | inr n ↦ rw (e, replace_expiry) (rw n (ground (arith, get-delete p r s.expires, ==_iff p r)))
    ]
  ]

  time-replace_ne :
      (q : ℕ) (s : Store)
      → p ≢ q
      → r ≢ q
      → Table.get q (replace_expiry b r p s).expires ≡ Table.get q s.expires
  unfolding replace_expiry
  time-replace_ne q s h g = elim (Option-cases (Table.get p s.expires)) [
    | inl e ↦ rw (e, replace_expiry) (ground (arith, get-delete p q s.expires, ==_iff p q))
    | inr (t, e) ↦ elim (Bool-cases (b && ltb_ℤ (pos 0) t)) [
      | inl y ↦
          rw (e, replace_expiry)
            (rw y (
              ground (
                arith,
                get-delete p q (Table.put r t s.expires),
                get-put r q t s.expires,
                ==_iff p q,
                ==_iff r q,
              )))
      | inr n ↦ rw (e, replace_expiry) (rw n (ground (arith, get-delete p q s.expires, ==_iff p q)))
    ]
  ]

module _ (now : ℤ) (k : Str) (r : ℕ) (s : Store) (v : IsValid s) (free : IsFree r s) where
  abbrev inserted : Store → Store
  inserted t = record t { store = Table.put k r t.store }

  view-inserted :
      (t : Store) (j : Str)
      → view now j (inserted t)
        ≡ (if str_beq k j then live now (t.objs r) (Table.get r t.expires) else view now j t)
  view-inserted t j = ground (arith, get-put k j r t.store)

  view-replace_expiry :
      (b : Bool) (p : ℕ) (j : Str)
      → Table.get k s.store ≡ some p
      → view now j (inserted (replace_expiry b r p s)) ≡ (
          if str_beq k j
          then live now (s.objs r) (ttl_after b (Table.get r s.expires) (replaced k s))
          else view now j s)
  unfolding replace_expiry
  view-replace_expiry b p j e =
      view-inserted (replace_expiry b r p s) j ∙ elim (Option-cases (Table.get j s.store)) [
        | inl f ↦ ground (arith, time-replace_self b r p s (λ q. free k (e ∙ ap some q)))
        | inr (q, f) ↦ ground (
          arith,
          time-replace_self b r p s (λ i. free k (e ∙ ap some i)),
          v.unshared k j p,
          str_beq_iff k j,
          time-replace_ne b r p q s,
          free j,
        )
      ]

  view-make_room :
      (j : Str)
      → Table.get k s.store ≡ none
      → view now j (inserted (make_room now s)) ≡ (
          if str_beq k j
          then live now (s.objs r) (Table.get r s.expires)
          else if is_victim j (victims (should_evict s) s)
          then none
          else view now j s)
  unfolding make_room
  view-make_room j e = elim (Bool-cases (ltb 0 (should_evict s))) [
    | inl y ↦
        let n = should_evict s in
        let t = (evict now n s).1 in
        rw y (
          view-inserted (record t { num_keys = t.num_keys +ℤ pos 1 }) j
          ∙ ground (
            arith,
            view-evict now n j s v,
            ap (λ f. f r) (objs-evict now n s),
            time-evict now n r s free,
          ))
    | inr n ↦
        rw n
          (view-inserted (record s { num_keys = s.num_keys +ℤ pos 1 }) j ∙ rw (no_victims _ j s n))
  ]

-- The expiry time that a put leaves on its key, and what it shows of the other keys.
abbrev pub put_entry : ℤ → Str → ℕ → PutOptions → Store → Option Entry
put_entry now k r options s =
    live now (s.objs r) (ttl_after options.keep_ttl (Table.get r s.expires) (replaced k s))

-- A put of an object that no key holds, into a well-formed store: its key shows the object with
-- its expiry time (under KEEPTTL a positive one taken over), and of the other keys exactly the
-- eviction's victims disappear, only where the key was new.
pub put_helper-view :
    (now : ℤ) (k j : Str) (r : ℕ) (options : PutOptions) (s : Store)
    → IsValid s
    → IsFree r s
    → view now j (put_helper now k r options s) ≡ (
        if str_beq k j
        then put_entry now k r options s
        else if is_evicted k j (touch_obj now r s)
        then none
        else view now j s)
unfolding put_helper touch_obj
put_helper-view now k j r options s v free =
    let t = touch_obj now r s in
    let v' = touch_obj-IsValid now r s v in
    elim (Option-cases (Table.get k s.store)) [
      | inl e ↦
          rw (e, put_helper)
            (view-SameTables now j (notify-SameTables options.put_cmd k _)
              ∙ view-make_room now k r t v' free j e
              ∙ ground (arith, view-touch_obj now now j r s))
      | inr (p, e) ↦
          rw (e, put_helper)
            (view-SameTables now j (notify-SameTables options.put_cmd k _)
              ∙ view-replace_expiry now k r t v' free options.keep_ttl p j e
              ∙ ground (arith, view-touch_obj now now j r s))
    ]
