-- ===== src/Store/View/Basic.antt =====
-- Lookups, deletion, the sweep of expired keys and writes in place against the view of a store.
use dice_db_distributed_syst.Prelude.{
  ℕ, ◌==◌, ◌≡◌, refl, ◌∙◌, inl, inr, Bool, Option, none, some, arith, if◌then◌else◌, ==_iff,
  if_both, Option-cases, Str, str_beq, str_beq_iff, nat_eq, str_eq,
}
use dice_db_distributed_syst.Prelude.Int.{ℤ}
use dice_db_distributed_syst.Table
use dice_db_distributed_syst.Table.Laws.{get-delete}
use dice_db_distributed_syst.Object.{Obj}
use dice_db_distributed_syst.Store.State.{Store, touch_obj, reset, write_obj}
use dice_db_distributed_syst.Store.Expiry.{has_expired}
use dice_db_distributed_syst.Store.Delete.{delete_key, del, del_cmd}
use dice_db_distributed_syst.Store.Access.{get_helper, get_del}
use dice_db_distributed_syst.Store.Fields.{SameTables, delete_key-SameTables, without_key}
use dice_db_distributed_syst.Store.Invariant.{IsValid}
use dice_db_distributed_syst.Store.Invariant.Access.{Lookup, absent, gone, found, get_helper-Lookup}
use dice_db_distributed_syst.Store.View.{view, view_at, is_past, live}

pub view-SameTables :
    {s t : Store} (now : ℤ) (j : Str) → SameTables s t → view now j s ≡ view now j t
view-SameTables now j h = λ i. view_at now (h.objs i) (h.expires i) (Table.get j (h.store i))

pub has_expired-eq-is_past :
    (now : ℤ) (r : ℕ) (s : Store) → has_expired now r s ≡ is_past now (Table.get r s.expires)
unfolding has_expired
has_expired-eq-is_past now r s = ground arith

pub view-touch_obj :
    (now n : ℤ) (j : Str) (r : ℕ) (s : Store) → view now j (touch_obj n r s) ≡ view now j s
unfolding touch_obj
view-touch_obj now n j r s = ground (arith)

module _ (now : ℤ) (k : Str) (s : Store) (v : IsValid s) where
  -- A key and its expiry are removed; no other key has the object.
  view-without_key :
      (r : ℕ) (j : Str)
      → Table.get k s.store ≡ some r
      → view now j (without_key k r s) ≡ (if str_beq k j then none else view now j s)
  view-without_key r j e = elim (Option-cases (Table.get j s.store)) [
    | inl f ↦ ground (arith, get-delete k j s.store)
    | inr (p, f) ↦ ground (
      arith,
      get-delete k j s.store,
      get-delete r p s.expires,
      v.unshared k j r,
      str_beq_iff k j,
      ==_iff r p,
    )
  ]

  pub view-delete_key :
      (cmd : Str) (r : ℕ) (j : Str)
      → Table.get k s.store ≡ some r
      → view now j (delete_key cmd k (some r) s).1 ≡ (if str_beq k j then none else view now j s)
  view-delete_key cmd r j e =
      view-SameTables now j (delete_key-SameTables cmd k s r) ∙ view-without_key r j e

  pub view-del :
      (cmd : Str) (j : Str)
      → view now j (del cmd k s).1 ≡ (if str_beq k j then none else view now j s)
  unfolding del
  view-del cmd j = elim (Option-cases (Table.get k s.store)) [
    | inl e ↦ rw (e, del) (ground (arith, str_beq_iff k j))
    | inr (r, e) ↦ rw (e, del) (view-delete_key cmd r j e)
  ]

pub view-reset : (now : ℤ) (k : Str) (s : Store) → view now k (reset s) ≡ none
unfolding reset Table.get Table.load
view-reset now k s = refl

-- A lookup finds the key's object exactly where the view has an entry, and leaves the view as it is.
pub Lookup-view :
    {now : ℤ} {k : Str} {touch : Bool} {s : Store} {o : Option ℕ × Store} (j : Str)
    → Lookup now k touch s o
    → IsValid s
    → (view now j o.1 ≡ view now j s) × (view now k s ≡ view_at now s.objs s.expires o.0)
Lookup-view j (absent e) v = (refl, ground arith)
Lookup-view {now = now} {k = k} {s = s} j (gone r e x) v = (
  view-delete_key now k s v del_cmd r j e
      ∙ ground (arith, has_expired-eq-is_past now r s, str_beq_iff k j),
  ground (arith, has_expired-eq-is_past now r s),
)
Lookup-view {now = now} {k = k} {touch = touch} {s = s} j (found r e x) v = (
  if_both (λ (t : Store). view now j t ≡ view now j s) touch (view-touch_obj now now j r s) refl,
  ground arith,
)

-- A lookup in a well-formed store changes nothing that a client can see, even where it deletes an
-- expired key, and the pointer that it gives carries the entry of the key.
pub get_helper-view :
    (now : ℤ) (k j : Str) (touch : Bool) (s : Store)
    → IsValid s
    → (view now j (get_helper now k touch s).1 ≡ view now j s)
      × (view now k s ≡ view_at now s.objs s.expires (get_helper now k touch s).0)
get_helper-view now k j touch s v = Lookup-view j (get_helper-Lookup now k touch s) v

-- GetDel on a well-formed store gives the object of the key's entry and removes the key, expired
-- or not; it leaves the other keys.
get_del-view :
    (now : ℤ) (cmd k j : Str) (s : Store)
    → IsValid s
    → (view now j (get_del now cmd k s).1 ≡ (if str_beq k j then none else view now j s))
      × (view now k s ≡ view_at now s.objs s.expires (get_del now cmd k s).0)
unfolding get_del
get_del-view now cmd k j s v = elim (Option-cases (Table.get k s.store)) [
  | inl e ↦ rw (e, get_del) (ground (arith, str_beq_iff k j), refl)
  | inr (r, e) ↦
      rw (e, get_del)
        (view-delete_key now k s v cmd r j e, ground (arith, has_expired-eq-is_past now r s))
]

-- An object written in place shows at every key that holds it, and at no other.
pub view-write_obj :
    (now : ℤ) (j : Str) (r : ℕ) (o : Obj) (s : Store)
    → view now j (write_obj r o s) ≡ elim (Table.get j s.store) [
      | none ↦ none
      | some p ↦ if p == r then live now o (Table.get r s.expires) else view now j s
    ]
unfolding write_obj
view-write_obj now j r o s = elim (Option-cases (Table.get j s.store)) [
  | inl e ↦ rw e
  | inr (p, e) ↦ ground (arith, ==_iff p r)
]
