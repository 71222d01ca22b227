-- ===== src/Cmd/Keyspace/Laws.antt =====
-- EXISTS and DEL (internal/cmd/cmd_exists.go, cmd_del.go) against the view of a store.
use dice_db_distributed_syst.Prelude.{
  ℕ, suc, ◌+◌, ◌≡◌, refl, ap, ◌∙◌, inl, inr, Bool, false, ◌||◌, Option, none, some, List, [], ◌∷◌,
  arith, if◌then◌else◌, Option-cases, Str, str_beq, nat_eq, str_eq,
}
use dice_db_distributed_syst.Prelude.Int.{ℤ}
use dice_db_distributed_syst.Store.State.{Store}
use dice_db_distributed_syst.Store.Access.{get_helper, get_no_touch}
use dice_db_distributed_syst.Store.Delete.{del, del_cmd}
use dice_db_distributed_syst.Store.Invariant.{IsValid}
use dice_db_distributed_syst.Store.Invariant.Basic.{del-IsValid}
use dice_db_distributed_syst.Store.Invariant.Access.{
  Lookup, absent, gone, found, get_helper-Lookup, get_helper-IsValid,
}
use dice_db_distributed_syst.Store.View.{Entry, view}
use dice_db_distributed_syst.Store.View.Basic.{get_helper-view, view-del, has_expired-eq-is_past}
use dice_db_distributed_syst.Cmd.Keyspace.{exists_loop, del_loop, one_if, is_found}

-- How many of the keys show an entry; a key counts as often as it stands there.
abbrev pub count_shown : (Str → Option Entry) → List Str → ℕ
count_shown w [] = 0
count_shown w (k ∷ ks) = elim (w k) [ none ↦ count_shown w ks | some _ ↦ suc (count_shown w ks) ]

abbrev one_shown : Option Entry → ℕ
one_shown none = 0
one_shown (some _) = 1

found-one_shown :
    {now : ℤ} {k : Str} {s : Store} {o : Option ℕ × Store}
    → Lookup now k false s o
    → IsValid s
    → one_if (is_found o.0) ≡ one_shown (view now k s)
found-one_shown {k = k} {s = s} (absent e) v = ground arith
found-one_shown {now = now} {s = s} (gone r e x) v = ground (arith, has_expired-eq-is_past now r s)
found-one_shown {now = now} {s = s} (found r e x) v = ground (arith, has_expired-eq-is_past now r s)

-- EXISTS on a well-formed store counts the keys that show an entry, as often as they stand there,
-- and changes nothing that a client can see.
exists_loop-count :
    (now : ℤ) (ks : List Str) (s : Store) (w : Str → Option Entry)
    → IsValid s
    → ((j : Str) → view now j s ≡ w j)
    → ((exists_loop now ks s).0 ≡ count_shown w ks)
      × ((j : Str) → view now j (exists_loop now ks s).1 ≡ w j)
unfolding exists_loop get_no_touch
exists_loop-count now [] s w v same = (refl, same)
exists_loop-count now (k ∷ ks) s w v same =
    let here = found-one_shown (get_helper-Lookup now k false s) v in
    let r =
      exists_loop-count now ks (get_helper now k false s).1 w (get_helper-IsValid now k false s v)
        (λ j. (get_helper-view now k j false s v).0 ∙ same j) in
    (
      (λ i. here i + r.0 i)
          ∙ ap (λ e. one_shown e + count_shown w ks) (same k)
          ∙ elim (Option-cases (w k)) [
            | inl e ↦ rw (e, count_shown) (omega arith)
            | inr (e', e) ↦ rw (e, count_shown) (omega arith)
          ],
      r.1,
    )

abbrev pub listed : Str → List Str → Bool
listed j [] = false
listed j (k ∷ ks) = str_beq k j || listed j ks

-- DEL on a well-formed store hides every key of its list and no other, and the store stays well
-- formed.
pub del_loop-view :
    (now : ℤ) (ks : List Str) (s : Store) (j : Str)
    → IsValid s
    → (view now j (del_loop ks s).1 ≡ (if listed j ks then none else view now j s))
      × IsValid (del_loop ks s).1
unfolding del_loop
del_loop-view now [] s j v = (refl, v)
del_loop-view now (k ∷ ks) s j v =
    let r = del_loop-view now ks (del del_cmd k s).1 j (del-IsValid del_cmd k s v) in
    (r.0 ∙ ground (arith, view-del now k s v del_cmd j), r.1)
