-- ===== src/Store/Fields.antt =====
-- What the operations of internal/store/store.go leave in the fields that they do not mean to change,
-- and in the tables.
use dice_db_distributed_syst.Prelude.{
  ℕ, ◌≡◌, refl, sym, ap, ◌∙◌, inl, inr, Bool, false, ◌||◌, none, some, List, [], ◌∷◌, arith,
  if◌then◌else◌, Option-cases, Str, str_beq, nat_eq, str_eq,
}
use dice_db_distributed_syst.Prelude.Int.{pos, ◌-ℤ◌}
use dice_db_distributed_syst.Table
use dice_db_distributed_syst.Table.{remove}
use dice_db_distributed_syst.Table.Laws.{load-remove, remove-of_none}
use dice_db_distributed_syst.Store.State.{Store, notify_watch_manager}
use dice_db_distributed_syst.Store.Delete.{delete_key, del}
use dice_db_distributed_syst.Store.Evict.{EvictionItem, evict_cmd, del_victims}

-- What a client of the tables sees; the channel and the eviction statistics are left out.
pub record SameTables (s t : Store) : Type 0 where
  pub objs : s.objs ≡ t.objs
  pub next : s.next ≡ t.next
  pub store : s.store ≡ t.store
  pub expires : s.expires ≡ t.expires
  pub num_keys : s.num_keys ≡ t.num_keys

pub notify-SameTables : (cmd k : Str) (s : Store) → SameTables (notify_watch_manager cmd k s) s
unfolding notify_watch_manager
notify-SameTables cmd k s = elim (Option-cases s.watch) [
  | inl e ↦ simp (e, notify_watch_manager) same
  | inr (sent, e) ↦ simp (e, notify_watch_manager) same'
]
  where
    same : SameTables s s
    same = record { objs = refl; next = refl; store = refl; expires = refl; num_keys = refl }

    same' : {w : _} → SameTables (record s { watch = w }) s
    same' = record { objs = refl; next = refl; store = refl; expires = refl; num_keys = refl }

-- The store without a key and its pointer's expiry.
abbrev pub without_key : Str → ℕ → Store → Store
without_key k r s = record s {
  store = Table.delete k s.store;
  expires = Table.delete r s.expires;
  num_keys = s.num_keys -ℤ pos 1;
}

module _ (cmd k : Str) (s : Store) where
  pub delete_key-SameTables :
      (r : ℕ) → SameTables (delete_key cmd k (some r) s).1 (without_key k r s)
  unfolding delete_key
  delete_key-SameTables r = notify-SameTables cmd k (without_key k r s)

  pub next-del : (del cmd k s).1.next ≡ s.next
  unfolding del
  next-del = elim (Option-cases (Table.get k s.store)) [
    | inl e ↦ rw (e, del)
    | inr (r, e) ↦ rw (e, del) (delete_key-SameTables r).next
  ]

  pub objs-del : (del cmd k s).1.objs ≡ s.objs
  unfolding del
  objs-del = elim (Option-cases (Table.get k s.store)) [
    | inl e ↦ rw (e, del)
    | inr (r, e) ↦ rw (e, del) (delete_key-SameTables r).objs
  ]

  pub store-del : (del cmd k s).1.store.m ≡ remove k s.store.m
  unfolding del Table.delete Table.get
  store-del = elim (Option-cases (Table.get k s.store)) [
    | inl e ↦ rw (e, del) (sym (remove-of_none k s.store.m e))
    | inr (r, e) ↦ rw (e, del) (ap (λ t. t.m) (delete_key-SameTables r).store)
  ]

  pub get-del :
      (j : Str)
      → Table.get j (del cmd k s).1.store ≡ (if str_beq k j then none else Table.get j s.store)
  unfolding Table.get
  get-del j = rw store-del (load-remove k j s.store.m)

pub next-del_victims : (h : List EvictionItem) (s : Store) → (del_victims h s).next ≡ s.next
unfolding del_victims
next-del_victims [] s = refl
next-del_victims (v ∷ h) s = next-del_victims h _ ∙ next-del evict_cmd v.key s

pub objs-del_victims : (h : List EvictionItem) (s : Store) → (del_victims h s).objs ≡ s.objs
unfolding del_victims
objs-del_victims [] s = refl
objs-del_victims (v ∷ h) s = objs-del_victims h _ ∙ objs-del evict_cmd v.key s

-- Whether a key is among the victims.
unfoldable pub is_victim : Str → List EvictionItem → Bool
is_victim k [] = false
is_victim k (v ∷ h) = str_beq v.key k || is_victim k h

pub get-del_victims :
    (h : List EvictionItem) (j : Str) (s : Store)
    → Table.get j (del_victims h s).store ≡ (if is_victim j h then none else Table.get j s.store)
unfolding del_victims is_victim
get-del_victims [] j s = refl
get-del_victims (v ∷ h) j s =
    ground (arith, get-del_victims h j (del evict_cmd v.key s).1, get-del evict_cmd v.key s j)
