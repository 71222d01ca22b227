-- ===== src/Store/Invariant/Evict.antt =====
-- Eviction and insertion keep a store well formed.
use dice_db_distributed_syst.Prelude.{
  ℕ, zero, suc, ◌≡◌, refl, none, some, List, [], ◌∷◌, arith, if◌then◌else◌, Str, nat_eq, str_eq,
}
use dice_db_distributed_syst.Prelude.Int.{ℤ}
use dice_db_distributed_syst.Table
use dice_db_distributed_syst.Table.{Distinct}
use dice_db_distributed_syst.Store.State.{Store}
use dice_db_distributed_syst.Store.Evict.{EvictionItem, evict_cmd, del_victims, victims, evict}
use dice_db_distributed_syst.Store.Fields.{next-del_victims, get-del_victims, is_victim}
use dice_db_distributed_syst.Store.Invariant.{IsValid}
use dice_db_distributed_syst.Store.Invariant.Basic.{del-IsValid}

pub del_victims-IsValid :
    (h : List EvictionItem) (s : Store) → IsValid s → IsValid (del_victims h s)
unfolding del_victims
del_victims-IsValid [] s v = v
del_victims-IsValid (x ∷ h) s v = del_victims-IsValid h _ (del-IsValid evict_cmd x.key s v)

strategy-IsValid : (s : Store) {e : _} → IsValid s → IsValid (record s { strategy = e })
strategy-IsValid s v = record {
  keys = v.keys;
  times = v.times;
  counted = v.counted;
  allocated = v.allocated;
  unshared = v.unshared;
  dated = v.dated;
}

-- Eviction of any number of keys keeps a store well formed.
pub evict-IsValid : (now : ℤ) (n : ℕ) (s : Store) → IsValid s → IsValid (evict now n s).1
unfolding evict
evict-IsValid now zero s v = v
evict-IsValid now (suc n) s v = strategy-IsValid _ (del_victims-IsValid (victims (suc n) s) s v)

pub next-evict : (now : ℤ) (n : ℕ) (s : Store) → (evict now n s).1.next ≡ s.next
unfolding evict
next-evict now zero s = refl
next-evict now (suc n) s = next-del_victims (victims (suc n) s) s

-- Eviction removes the victims from the table, and no other key.
pub get-evict :
    (now : ℤ) (n : ℕ) (j : Str) (s : Store)
    → Table.get j (evict now (suc n) s).1.store
      ≡ (if is_victim j (victims (suc n) s) then none else Table.get j s.store)
unfolding evict
get-evict now n j s = get-del_victims (victims (suc n) s) j s

-- What is not in the table is not there after an eviction, and what is there was in the table.
pub get-evict_of_none :
    (now : ℤ) (n : ℕ) (j : Str) (s : Store)
    → Table.get j s.store ≡ none
    → Table.get j (evict now n s).1.store ≡ none
unfolding evict
get-evict_of_none now zero j s e = e
get-evict_of_none now (suc n) j s e = ground (arith, get-del_victims (victims (suc n) s) j s)

pub get-evict-some :
    (now : ℤ) (n : ℕ) (j : Str) (r : ℕ) (s : Store)
    → Table.get j (evict now n s).1.store ≡ some r
    → Table.get j s.store ≡ some r
unfolding evict
get-evict-some now zero j r s e = e
get-evict-some now (suc n) j r s e = ground (arith, get-del_victims (victims (suc n) s) j s)
