-- ===== src/Cmd/Counter/Laws.antt =====
-- What the counters of internal/cmd (INCR, INCRBY, DECR, DECRBY) do to the view of a store.
use dice_db_distributed_syst.Prelude.{
  ℕ, ◌≡◌, refl, ap, ◌∙◌, inl, inr, true, false, Option, some, arith, if◌then◌else◌, ==_iff,
  Option-cases, Str, str_beq, str_beq_iff, nat_eq, str_eq,
}
use dice_db_distributed_syst.Prelude.Int.{ℤ, ◌+ℤ◌, wrap64}
use dice_db_distributed_syst.Table
use dice_db_distributed_syst.Object.{ObjectType, Value, wrong_type}
use dice_db_distributed_syst.Store.State.{Store, touch_obj}
use dice_db_distributed_syst.Store.Access.{get}
use dice_db_distributed_syst.Store.Invariant.{IsValid}
use dice_db_distributed_syst.Store.Invariant.Basic.{touch_obj-IsValid}
use dice_db_distributed_syst.Store.Invariant.Access.{Lookup, absent, gone, found, get_helper-Lookup}
use dice_db_distributed_syst.Store.View.{Entry, view, view_at, live}
use dice_db_distributed_syst.Store.View.Basic.{view-touch_obj, Lookup-view, view-write_obj}
use dice_db_distributed_syst.Cmd.Counter.{values, int_value, incr_found, do_incr}

-- The entry with another number.
abbrev pub with_number : Entry → ℤ → Entry
with_number e n = record e { value = Value.int n }

int_not_wrong : wrong_type ObjectType.int ObjectType.int ≡ false
unfolding wrong_type
int_not_wrong = refl

view-incr_found :
    (now : ℤ) (key j : Str) (delta : ℤ) (r : ℕ) (e : Entry) (s : Store)
    → IsValid s
    → Table.get key s.store ≡ some r
    → view now key s ≡ some e
    → e.type ≡ ObjectType.int
    → ((incr_found now key delta (some r) s).0
        ≡ values (int_value e.value) (wrap64 (int_value e.value +ℤ delta)))
      × (view now j (incr_found now key delta (some r) s).1 ≡ (
          if str_beq key j
          then some (with_number e (wrap64 (int_value e.value +ℤ delta)))
          else view now j s))
unfolding incr_found
view-incr_found now key j delta r e s v here shown int =
    let t = Table.get r s.expires in
    let is_live : live now (s.objs r) t ≡ some e = ground arith in
    let value : (s.objs r).value ≡ e.value = ground arith in
    let type : (s.objs r).type ≡ ObjectType.int = ground arith in
    let typed : wrong_type (s.objs r).type ObjectType.int ≡ false = rw type (int_not_wrong) in
    let new = wrap64 (int_value (s.objs r).value +ℤ delta) in
    let o = record (s.objs r) { value = Value.int new } in
    rw typed (
      ap (λ w. values (int_value w) (wrap64 (int_value w +ℤ delta))) value,
      view-write_obj now j r o s ∙ elim (Option-cases (Table.get j s.store)) [
        | inl f ↦ ground (arith, str_beq_iff key j)
        | inr (p, f) ↦ ground (arith, v.unshared key j r, str_beq_iff key j, ==_iff p r)
      ],
    )

-- INCR and its kin on a key of a well-formed store that shows an integer: the reply has the old
-- number and the wrapped sum, the key shows the sum and keeps its expiry time, and no other key
-- changes.
pub do_incr_present :
    (now : ℤ) (key j : Str) (delta : ℤ) (e : Entry) (s : Store)
    → IsValid s
    → view now key s ≡ some e
    → e.type ≡ ObjectType.int
    → ((do_incr now key delta s).0
        ≡ values (int_value e.value) (wrap64 (int_value e.value +ℤ delta)))
      × (view now j (do_incr now key delta s).1 ≡ (
          if str_beq key j
          then some (with_number e (wrap64 (int_value e.value +ℤ delta)))
          else view now j s))
unfolding do_incr get
do_incr_present now key j delta e s v shown int = by_lookup (get_helper-Lookup now key true s)
  where
    by_lookup :
        {o : Option ℕ × Store}
        → Lookup now key true s o
        → ((incr_found now key delta o.0 o.1).0
            ≡ values (int_value e.value) (wrap64 (int_value e.value +ℤ delta)))
          × (view now j (incr_found now key delta o.0 o.1).1 ≡ (
              if str_beq key j
              then some (with_number e (wrap64 (int_value e.value +ℤ delta)))
              else view now j s))
    by_lookup (absent f) = cc (ap (view_at now s.objs s.expires) f)
    by_lookup (gone r f x) =
        let h = Lookup-view {now = now} {k = key} {touch = true} {s = s} key (gone r f x) v in
        cc (h.1)
    by_lookup (found r f x) =
        let s' = touch_obj now r s in
        let same = view-touch_obj now now in
        let h =
          view-incr_found now key j delta r e s' (touch_obj-IsValid now r s v)
            (unfold touch_obj in f) (same key r s ∙ shown) int in
        (
          h.0,
          h.1
              ∙ ap
                  (λ w.
                    if str_beq key j
                    then some (with_number e (wrap64 (int_value e.value +ℤ delta)))
                    else w)
                  (same j r s),
        )
