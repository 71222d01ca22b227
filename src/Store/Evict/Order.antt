-- ===== src/Store/Evict/Order.antt =====
-- EvictVictims (internal/store/batchevictionlru.go) chooses keys that were accessed least recently.
use dice_db_distributed_syst.Prelude.{
  ℕ, suc, ◌≤◌, ◌<◌, ◌≡◌, refl, ap, ◌⊎◌, inl, inr, true, false, some, List, [], ◌∷◌, arith, ltb,
  if_both, Bool-cases, length, All, Str, str_beq, str_beq_iff, nat_eq, str_eq,
}
use dice_db_distributed_syst.Prelude.Int.{ℤ, ◌≤ℤ◌, ltb_ℤ}
use dice_db_distributed_syst.Table
use dice_db_distributed_syst.Table.{load}
use mathlib.Core.Path.{ap₂, subst}
use dice_db_distributed_syst.Store.State.{Store}
use dice_db_distributed_syst.Store.Fields.{is_victim}
use dice_db_distributed_syst.Store.Evict.{EvictionItem, less, heap_push, scan_item, scan, victims}

-- No item of the heap was accessed later.
abbrev pub Below : ℤ → List EvictionItem → Type 0
Below t h = All (λ v. v.last_accessed ≤ℤ t) h

abbrev pub Sorted : List EvictionItem → Type 0
Sorted [] = Unit
Sorted (x ∷ h) = Below x.last_accessed h × Sorted h

abbrev pub Has : EvictionItem → List EvictionItem → Type 0
Has x [] = ⊥
Has x (y ∷ h) = (y ≡ x) ⊎ Has x h

Below-trans : (t u : ℤ) (h : List EvictionItem) → t ≤ℤ u → Below t h → Below u h
Below-trans t u [] le b = tt
Below-trans t u (x ∷ h) le b = (omega arith, Below-trans t u h le b.1)

length-heap_push :
    (x : EvictionItem) (h : List EvictionItem) → length (heap_push x h) ≡ suc (length h)
unfolding heap_push
length-heap_push x [] = refl
length-heap_push x (y ∷ h) = ground (arith, length-heap_push x h)

Below-heap_push :
    (t : ℤ) (x : EvictionItem) (h : List EvictionItem)
    → x.last_accessed ≤ℤ t
    → Below t h
    → Below t (heap_push x h)
unfolding heap_push
Below-heap_push t x [] le b = (le, tt)
Below-heap_push t x (y ∷ h) le b =
    if_both (Below t) (less y x) (b.0, Below-heap_push t x h le b.1) (le, b)

Sorted-heap_push : (x : EvictionItem) (h : List EvictionItem) → Sorted h → Sorted (heap_push x h)
unfolding heap_push
Sorted-heap_push x [] s = (tt, tt)
Sorted-heap_push x (y ∷ h) s = elim (Bool-cases (less y x)) [
  | inl e ↦ rw e (
    Below-heap_push y.last_accessed x h (unfold less in ground arith) s.0,
    Sorted-heap_push x h s.1,
  )
  | inr e ↦
      let le : y.last_accessed ≤ℤ x.last_accessed = unfold less in ground arith in
      rw e ((le, Below-trans y.last_accessed x.last_accessed h le s.0), s)
]

Has-heap_push_self : (x : EvictionItem) (h : List EvictionItem) → Has x (heap_push x h)
unfolding heap_push
Has-heap_push_self x [] = inl refl
Has-heap_push_self x (y ∷ h) = if_both (Has x) (less y x) (inr (Has-heap_push_self x h)) (inl refl)

Has-heap_push : (x z : EvictionItem) (h : List EvictionItem) → Has z h → Has z (heap_push x h)
unfolding heap_push
Has-heap_push x z [] m = absurd m
Has-heap_push x z (y ∷ h) (inl e) = if_both (Has z) (less y x) (inl e) (inr (inl e))
Has-heap_push x z (y ∷ h) (inr m) =
    if_both (Has z) (less y x) (inr (Has-heap_push x z h m)) (inr (inr m))

-- What the scan keeps: the heap is ordered and within the number wanted.
record IsScan (n : ℕ) (h : List EvictionItem) : Type 0 where
  sorted : Sorted h
  bounded : length h ≤ n

-- An item seen is in the heap, or the heap is full of items accessed no later.
abbrev Settled : ℕ → EvictionItem → List EvictionItem → Type 0
Settled n x h = Has x h ⊎ ((length h ≡ n) × Below x.last_accessed h)

-- The three ways in which the scan deals with an item.
data Scanned (n : ℕ) (it : EvictionItem) : List EvictionItem → List EvictionItem → Type 0 where
  grows : (h : List EvictionItem) → length h < n → Scanned n it h (heap_push it h)
  trades :
      (root : EvictionItem) (h : List EvictionItem)
      → length (root ∷ h) ≡ n
      → it.last_accessed ≤ℤ root.last_accessed
      → Scanned n it (root ∷ h) (heap_push it h)
  stays : (h : List EvictionItem) → length h ≡ n → Below it.last_accessed h → Scanned n it h h

scan_item-Scanned :
    (n : ℕ) (it : EvictionItem) (h : List EvictionItem)
    → IsScan n h
    → Scanned n it h (scan_item n it h)
unfolding scan_item
scan_item-Scanned n it [] v = elim (Bool-cases (ltb 0 n)) [
  | inl e ↦ rw (e, scan_item) (grows [] (ground arith))
  | inr e ↦ rw (e, scan_item) (stays [] (ground arith) tt)
]
scan_item-Scanned n it (root ∷ h) v = elim (Bool-cases (ltb (suc (length h)) n)) [
  | inl e ↦ rw (e, scan_item) (grows (root ∷ h) (ground arith))
  | inr e ↦
      let full : length (root ∷ h) ≡ n = ground (arith, v.bounded) in
      elim (Bool-cases (ltb_ℤ it.last_accessed root.last_accessed)) [
        | inl f ↦ rw (e, scan_item) (rw f (trades root h full (ground arith)))
        | inr f ↦
            let le : root.last_accessed ≤ℤ it.last_accessed = ground arith in
            rw (e, scan_item)
              (rw f (
                stays (root ∷ h) full
                  (le, Below-trans root.last_accessed it.last_accessed h le v.sorted.0)))
      ]
]

Scanned-IsScan :
    {n : ℕ} {it : EvictionItem} {h g : List EvictionItem}
    → Scanned n it h g
    → IsScan n h
    → IsScan n g
Scanned-IsScan {it = it} (grows h lt) v = record {
  sorted = Sorted-heap_push it h v.sorted;
  bounded = omega (arith, length-heap_push it h);
}
Scanned-IsScan {it = it} (trades root h full le) v = record {
  sorted = Sorted-heap_push it h v.sorted.1;
  bounded = omega (arith, length-heap_push it h);
}
Scanned-IsScan (stays h full below) v = v

Scanned-Settled_self :
    {n : ℕ} {it : EvictionItem} {h g : List EvictionItem} → Scanned n it h g → Settled n it g
Scanned-Settled_self {it = it} (grows h lt) = inl (Has-heap_push_self it h)
Scanned-Settled_self {it = it} (trades root h full le) = inl (Has-heap_push_self it h)
Scanned-Settled_self (stays h full below) = inr (full, below)

Scanned-Settled :
    {n : ℕ} {it : EvictionItem} (x : EvictionItem) {h g : List EvictionItem}
    → Scanned n it h g
    → IsScan n h
    → Settled n x h
    → Settled n x g
Scanned-Settled {it = it} x (grows h lt) v (inl m) = inl (Has-heap_push it x h m)
Scanned-Settled x (grows h lt) v (inr b) = absurd (omega arith)
Scanned-Settled {n = n} {it = it} x (trades root h full le) v (inl (inl e)) =
    let below = Below-heap_push root.last_accessed it h le v.sorted.0 in
    inr (omega (arith, length-heap_push it h), rw (ap (λ y. y.last_accessed) e) at below)
Scanned-Settled {it = it} x (trades root h full le) v (inl (inr m)) = inl (Has-heap_push it x h m)
Scanned-Settled {it = it} x (trades root h full le) v (inr b) =
    inr (
      omega (arith, length-heap_push it h),
      Below-heap_push x.last_accessed it h (omega arith) b.1.1,
    )
Scanned-Settled x (stays h full below) v m = m

abbrev item_of : Store → Str → ℕ → EvictionItem
item_of s k r = record { key = k; last_accessed = (s.objs r).last_accessed_at }

scan-Settled :
    (n : ℕ) (s : Store) (x : EvictionItem) (l : List (Str × ℕ)) (h : List EvictionItem)
    → IsScan n h
    → Settled n x h
    → Settled n x (scan n s l h)
unfolding scan
scan-Settled n s x [] h v m = m
scan-Settled n s x ((k, r) ∷ l) h v m =
    let step = scan_item-Scanned n (item_of s k r) h v in
    scan-Settled n s x l _ (Scanned-IsScan step v) (Scanned-Settled x step v m)

scan-Settled_entry :
    (n : ℕ) (s : Store) (j : Str) (p : ℕ) (l : List (Str × ℕ)) (h : List EvictionItem)
    → IsScan n h
    → load j l ≡ some p
    → Settled n (item_of s j p) (scan n s l h)
unfolding scan load
scan-Settled_entry n s j p [] h v e = cc
scan-Settled_entry n s j p ((k, r) ∷ l) h v e =
    let step = scan_item-Scanned n (item_of s k r) h v in
    let w = Scanned-IsScan step v in
    elim (Bool-cases (str_beq k j)) [
      | inl y ↦
          let same : k ≡ j = (str_beq_iff k j).0 y in
          let here : r ≡ p = ground arith in
          subst (λ x. Settled n x (scan n s l (scan_item n (item_of s k r) h)))
            (ap₂ (item_of s) same here)
            (scan-Settled n s (item_of s k r) l _ w (Scanned-Settled_self step))
      | inr y ↦ scan-Settled_entry n s j p l _ w (ground arith)
    ]

is_victim-Has : (x : EvictionItem) (h : List EvictionItem) → Has x h → is_victim x.key h ≡ true
unfolding is_victim
is_victim-Has x [] m = absurd m
is_victim-Has x (y ∷ h) (inl e) = ground (arith, str_beq_iff y.key x.key)
is_victim-Has x (y ∷ h) (inr m) = ground (arith, is_victim-Has x h m)

-- If a key of the table is not among the n keys chosen for eviction, then n keys are chosen and
-- none of them was accessed later than it.
pub victims_least_recent :
    (n : ℕ) (s : Store) (j : Str) (p : ℕ)
    → Table.get j s.store ≡ some p
    → is_victim j (victims n s) ≡ false
    → (length (victims n s) ≡ n) × Below (s.objs p).last_accessed_at (victims n s)
unfolding Table.get
victims_least_recent n s j p e spared =
    settled
      (scan-Settled_entry n s j p s.store.m [] (record { sorted = tt; bounded = omega arith }) e)
  where
    settled :
        Settled n (item_of s j p) (victims n s)
        → (length (victims n s) ≡ n) × Below (s.objs p).last_accessed_at (victims n s)
    settled (inl m) = cc (is_victim-Has (item_of s j p) (victims n s) m)
    settled (inr b) = b
