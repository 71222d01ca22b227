-- ===== src/Store/Evict.antt =====
-- internal/store/batchevictionlru.go and recordEviction of eviction.go.
-- container/heap is used through its root, Push and Pop; by its contract the root and what Pop takes
-- is a greatest item by Less. The model keeps the heap's items in the order in which Pop gives them.
-- The target, Ceil(float64(maxKeys) * (1 - 0.9)), is the tenth rounded up for every maxKeys up to
-- DefaultKeysLimit: the product is then off by less than the distance to the next integer.
pub mod Order
use dice_db_distributed_syst.Prelude.{
  ℕ, zero, ◌+◌, ◌/◌, Bool, List, [], ◌∷◌, arith, ltb, if◌then◌else◌, length, Str, codes, nat_eq,
  str_eq,
}
use dice_db_distributed_syst.Prelude.Int.{ℤ, pos, pos_part, ◌-ℤ◌, ltb_ℤ}
use dice_db_distributed_syst.Store.State.{Store, EvictionStats, get_key_count}
use dice_db_distributed_syst.Store.Delete.{del}

pub record EvictionItem : Type 0 where
  pub key : Str
  pub last_accessed : ℤ

-- evictionItemHeap.Less: the later access is nearer to the root.
unfoldable pub less : EvictionItem → EvictionItem → Bool
less a b = ltb_ℤ b.last_accessed a.last_accessed

-- heap.Push
unfoldable pub heap_push : EvictionItem → List EvictionItem → List EvictionItem
unfolding less
heap_push x [] = x ∷ []
heap_push x (y ∷ h) = if less y x then y ∷ heap_push x h else x ∷ y ∷ h

abbrev pub evict_cmd : Str
evict_cmd = codes "EVICT"

unfoldable pub should_evict : Store → ℕ
unfolding get_key_count
should_evict s =
    let current = get_key_count s in
    let max_keys = s.strategy.max_keys in
    let to_evict = current -ℤ pos ((max_keys + 9) / 10) in
    if ltb_ℤ current (pos max_keys)
    then 0
    else if ltb_ℤ to_evict (pos 1)
    then 1
    else pos_part to_evict

-- The body of the Range: fill the heap, then trade its root for an item accessed earlier.
unfoldable pub scan_item : ℕ → EvictionItem → List EvictionItem → List EvictionItem
unfolding heap_push
scan_item n item [] = if ltb 0 n then heap_push item [] else []
scan_item n item (root ∷ h) =
    if ltb (length (root ∷ h)) n
    then heap_push item (root ∷ h)
    else if ltb_ℤ item.last_accessed root.last_accessed
    then heap_push item h
    else root ∷ h

unfoldable pub scan : ℕ → Store → List (Str × ℕ) → List EvictionItem → List EvictionItem
scan n s [] h = h
scan n s ((k, r) ∷ l) h =
    scan n s l (scan_item n (record { key = k; last_accessed = (s.objs r).last_accessed_at }) h)

-- The second loop pops every item and deletes its key.
unfoldable pub del_victims : List EvictionItem → Store → Store
del_victims [] s = s
del_victims (v ∷ h) s = del_victims h (del evict_cmd v.key s).1

unfoldable pub record_eviction : ℤ → ℕ → EvictionStats → EvictionStats
record_eviction now n st = record {
  total_evictions = st.total_evictions + 1;
  total_keys_evicted = st.total_keys_evicted + n;
  last_eviction_count = pos n;
  last_eviction_time_ms = now;
}

abbrev pub victims : ℕ → Store → List EvictionItem
victims n s = scan n s s.store.m []

-- EvictVictims; nothing happens at 0.
unfoldable pub evict_victims : ℤ → ℕ → Store → Store
evict_victims now zero s = s
evict_victims now n s =
    let s' = del_victims (victims n s) s in
    record s' { strategy = record s'.strategy { stats = record_eviction now n s'.strategy.stats } }

-- Store.evict, which reports success.
unfoldable pub evict : ℤ → ℕ → Store → Bool × Store
unfolding evict_victims
evict now n s = (Bool.true, evict_victims now n s)
