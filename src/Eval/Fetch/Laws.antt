-- ===== src/Eval/Fetch/Laws.antt =====
-- The lookup of a value and a write into it (internal/eval) against the view of a store.
use dice_db_distributed_syst.Prelude.{
  ℕ, ◌≡◌, refl, ap, ◌∙◌, inl, inr, true, false, Option, none, some, arith, ◌==◌, if◌then◌else◌,
  ==_iff, Option-cases, Str, str_beq, str_beq_iff, nat_eq, str_eq,
}
use dice_db_distributed_syst.Prelude.Int.{ℤ}
use dice_db_distributed_syst.Table
use dice_db_distributed_syst.Object.{Obj, ObjectType, Value, type_code, wrong_type}
use dice_db_distributed_syst.Store.State.{Store, touch_obj}
use dice_db_distributed_syst.Store.Access.{get}
use dice_db_distributed_syst.Store.Invariant.{IsValid}
use dice_db_distributed_syst.Store.Invariant.Basic.{touch_obj-IsValid}
use dice_db_distributed_syst.Store.Invariant.Access.{Lookup, absent, gone, found, get_helper-Lookup}
use dice_db_distributed_syst.Store.View.{Entry, view, live}
use dice_db_distributed_syst.Store.View.Basic.{view-touch_obj, Lookup-view, view-write_obj}
use dice_db_distributed_syst.Eval.Fetch
use dice_db_distributed_syst.Eval.Fetch.{Fetched, value_of, fetch, write_value}

not_wrong : (t : ObjectType) → wrong_type t t ≡ false
unfolding wrong_type
not_wrong t = let e : (type_code t == type_code t) ≡ true = (==_iff _ _).1 refl in rw e refl

-- A key that holds a value: the store after its lookup, and the object.
pub record IsAt {ℓ} {A : Type ℓ} (now : ℤ) (key : Str) (a : A) (s s' : Store) (f : Fetched A)
    : Type ℓ where
  pub at : ℕ
  pub fetched : f ≡ Fetch.found at a
  pub valid : IsValid s'
  pub held : Table.get key s'.store ≡ some at
  pub kept : (j : Str) → view now j s' ≡ view now j s

module _ {ℓ} {A : Type ℓ} (type : ObjectType) (cast : Value → Option A) (a : A) where
  value_of-found :
      (r : ℕ) (o : Obj)
      → o.type ≡ type
      → cast o.value ≡ some a
      → value_of type cast r o ≡ Fetch.found r a
  unfolding value_of
  value_of-found r o t c =
      let e : wrong_type o.type type ≡ false = ap (λ u. wrong_type u type) t ∙ not_wrong type in
      rw (e, c) refl

  -- A key of a well-formed store that shows a value of the type looked for.
  pub fetch-IsAt :
      (now : ℤ) (key : Str) (e : Entry) (s : Store)
      → IsValid s
      → view now key s ≡ some e
      → e.type ≡ type
      → cast e.value ≡ some a
      → IsAt now key a s (fetch type cast now key s).1 (fetch type cast now key s).0
  unfolding fetch get
  fetch-IsAt now key e s v shown t c = by_lookup (get_helper-Lookup now key true s)
    where
      nothing_shown : {s' : Store} → Lookup now key true s (none, s') → ⊥
      nothing_shown l =
          let h = Lookup-view {now = now} {k = key} {touch = true} {s = s} key l v in
          ground (arith, h.1, shown)

      by_lookup :
          {o : Option ℕ × Store}
          → Lookup now key true s o
          → IsAt now key a s o.1
              (elim o.0 [ none ↦ Fetch.missing | some r ↦ value_of type cast r (o.1.objs r) ])
      by_lookup (absent f) = absurd (nothing_shown (absent f))
      by_lookup (gone r f x) = absurd (nothing_shown (gone r f x))
      by_lookup (found r f x) =
          let s' = touch_obj now r s in
          let seen : view now key s' ≡ some e = view-touch_obj now now key r s ∙ shown in
          let held : Table.get key s'.store ≡ some r = unfold touch_obj in f in
          let is_live : live now (s'.objs r) (Table.get r s'.expires) ≡ some e =
            ground (arith, seen, held) in
          let same_type : (s'.objs r).type ≡ e.type = ground arith in
          let same_value : (s'.objs r).value ≡ e.value = ground arith in
          record {
            at = r;
            fetched = value_of-found r (s'.objs r) (same_type ∙ t) (ap cast same_value ∙ c);
            valid = touch_obj-IsValid now r s v;
            held = held;
            kept = λ j. view-touch_obj now now j r s;
          }

-- The write shows at the key, and at no other.
pub write_value-view :
    (now : ℤ) (key j : Str) (r : ℕ) (w : Value) (e : Entry) (s : Store)
    → IsValid s
    → Table.get key s.store ≡ some r
    → view now key s ≡ some e
    → view now j (write_value r w s)
      ≡ (if str_beq key j then some (record e { value = w }) else view now j s)
unfolding write_value
write_value-view now key j r w e s v here shown =
    let is_live : live now (s.objs r) (Table.get r s.expires) ≡ some e = ground arith in
    let o = record (s.objs r) { value = w } in
    view-write_obj now j r o s ∙ elim (Option-cases (Table.get j s.store)) [
      | inl f ↦ ground (arith, str_beq_iff key j)
      | inr (p, f) ↦ ground (arith, v.unshared key j r, str_beq_iff key j, ==_iff p r)
    ]
