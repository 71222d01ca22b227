-- ===== src/Store/View/Expire.antt =====
-- EvaluateAndSetExpiry (internal/store/expire.go) against the view of a store: what the sub-commands
-- mean together, and what becomes of the expiry times.
use dice_db_distributed_syst.Prelude.{
  ℕ, ◌≡◌, refl, sym, ap, ◌∙◌, inl, inr, Bool, true, false, not, ◌&&◌, ◌||◌, Option, none, some,
  List, [], ◌∷◌, arith, if◌then◌else◌, ==_iff, Option-cases, Str, str_beq, str_beq_iff, nat_eq,
  str_eq,
}
use dice_db_distributed_syst.Prelude.Int.{ℤ, leb_ℤ}
use dice_db_distributed_syst.Table
use dice_db_distributed_syst.Table.Laws.{get-put}
use dice_db_distributed_syst.Store.State.{Store, touch_obj, set_unix_time_expiry}
use dice_db_distributed_syst.Store.Expiry.{get_expiry}
use dice_db_distributed_syst.Store.Delete.{delete_key, del_cmd}
use dice_db_distributed_syst.Store.Access.{get}
use dice_db_distributed_syst.Store.Sweep.{
  SubCommand, sub_command, Flags, apply_sub_command, sub_commands_loop, ExpiryResult, conclude,
  evaluate_found, evaluate_and_set_expiry, no_flags, is_none, earlier, later,
}
use dice_db_distributed_syst.Store.Invariant.{IsValid}
use dice_db_distributed_syst.Store.Invariant.Basic.{touch_obj-IsValid}
use dice_db_distributed_syst.Store.Invariant.Access.{Lookup, absent, gone, found, get_helper-Lookup}
use dice_db_distributed_syst.Store.View.{Entry, view}
use dice_db_distributed_syst.Store.View.Basic.{has_expired-eq-is_past, view-touch_obj, Lookup-view}

abbrev pub any : (SubCommand → Bool) → List Str → Bool
any p [] = false
any p (c ∷ cs) = p (sub_command c) || any p cs

abbrev pub is_nx : SubCommand → Bool
is_nx c = elim c [ SubCommand.nx ↦ true | _ ↦ false ]

abbrev pub is_xx : SubCommand → Bool
is_xx c = elim c [ SubCommand.xx ↦ true | _ ↦ false ]

abbrev pub is_gt : SubCommand → Bool
is_gt c = elim c [ SubCommand.gt ↦ true | _ ↦ false ]

abbrev pub is_lt : SubCommand → Bool
is_lt c = elim c [ SubCommand.lt ↦ true | _ ↦ false ]

abbrev pub is_unsupported : SubCommand → Bool
is_unsupported c = elim c [ SubCommand.unsupported ↦ true | _ ↦ false ]

-- Whether a sub-command alone lets the new time in.
abbrev pub allows : Option ℤ → ℤ → SubCommand → Bool
allows prev t c = elim c [
  | SubCommand.nx ↦ is_none prev
  | SubCommand.xx ↦ not (is_none prev)
  | SubCommand.gt ↦ earlier prev t
  | SubCommand.lt ↦ later prev t
  | SubCommand.unsupported ↦ false
]

abbrev verdict : Bool → Bool → Bool → Bool → Bool → Bool → ExpiryResult
verdict unsupported nx xx gt lt allowed =
    if unsupported
    then ExpiryResult.unsupported_option
    else if not nx && gt && lt
    then ExpiryResult.gt_lt_conflict
    else if nx && (xx || gt || lt)
    then ExpiryResult.nx_conflict
    else if allowed
    then ExpiryResult.changed
    else ExpiryResult.unchanged

-- The result that a list of sub-commands stands for.
abbrev pub outcome : Option ℤ → ℤ → List Str → ExpiryResult
outcome prev t [] = ExpiryResult.changed
outcome prev t (c ∷ cs) =
    let l = c ∷ cs in
    verdict (any is_unsupported l) (any is_nx l) (any is_xx l) (any is_gt l) (any is_lt l)
      (any (allows prev t) l)

abbrev joined : Option ℤ → ℤ → List Str → Flags → Flags
joined prev t cs f = record {
  nx_cmd = any is_nx cs || f.nx_cmd;
  xx_cmd = any is_xx cs || f.xx_cmd;
  gt_cmd = any is_gt cs || f.gt_cmd;
  lt_cmd = any is_lt cs || f.lt_cmd;
  should_set = any (allows prev t) cs || f.should_set;
}

loop-joined :
    (prev : Option ℤ) (t : ℤ) (cs : List Str) (f : Flags)
    → sub_commands_loop prev t cs f
      ≡ (if any is_unsupported cs then none else some (joined prev t cs f))
unfolding sub_commands_loop apply_sub_command
loop-joined prev t [] f = refl
loop-joined prev t (c ∷ cs) f = by_case (sub_command c) (λ (g : Flags). loop-joined prev t cs g)
  where
    by_case :
        (k : SubCommand)
        → ((g : Flags)
            → sub_commands_loop prev t cs g
              ≡ (if any is_unsupported cs then none else some (joined prev t cs g)))
        → elim (apply_sub_command prev t k f) [
          | none ↦ none
          | some g ↦ sub_commands_loop prev t cs g
        ]
          ≡ (if is_unsupported k || any is_unsupported cs
              then none
              else some (record {
                nx_cmd = (is_nx k || any is_nx cs) || f.nx_cmd;
                xx_cmd = (is_xx k || any is_xx cs) || f.xx_cmd;
                gt_cmd = (is_gt k || any is_gt cs) || f.gt_cmd;
                lt_cmd = (is_lt k || any is_lt cs) || f.lt_cmd;
                should_set = (allows prev t k || any (allows prev t) cs) || f.should_set;
              }))
    by_case SubCommand.nx rec = rec _ ∙ ground arith
    by_case SubCommand.xx rec = rec _ ∙ ground arith
    by_case SubCommand.gt rec = rec _ ∙ ground arith
    by_case SubCommand.lt rec = rec _ ∙ ground arith
    by_case SubCommand.unsupported rec = refl

abbrev applied : ExpiryResult → ℕ → ℤ → Store → Store
applied e r t s = elim e [ ExpiryResult.changed ↦ set_unix_time_expiry r t s | _ ↦ s ]

conclude-verdict :
    (u n x g l a : Bool) (r : ℕ) (t : ℤ) (s : Store)
    → conclude r t
        (if u
          then none
          else some (record {
            nx_cmd = n || false;
            xx_cmd = x || false;
            gt_cmd = g || false;
            lt_cmd = l || false;
            should_set = a || false;
          }))
        s
      ≡ (verdict u n x g l a, applied (verdict u n x g l a) r t s)
unfolding conclude
conclude-verdict u n x g l a r t s = ground arith

-- What follows the lookup, by the outcome.
evaluate_found-outcome :
    (cs : List Str) (t : ℤ) (r : ℕ) (s : Store)
    → let e = outcome (Table.get r s.expires) t cs in
      evaluate_found cs t (some r) s ≡ (e, applied e r t s)
unfolding evaluate_found get_expiry
evaluate_found-outcome [] t r s = refl
evaluate_found-outcome (c ∷ cs) t r s =
    rw (loop-joined (Table.get r s.expires) t (c ∷ cs) no_flags)
      (conclude-verdict _ _ _ _ _ _ r t s)

view-applied :
    (now t : ℤ) (key j : Str) (r : ℕ) (e : Entry) (x : ExpiryResult) (s : Store)
    → IsValid s
    → Table.get key s.store ≡ some r
    → view now key s ≡ some e
    → view now j (applied x r t s) ≡ (
        if str_beq key j
        then elim x [
          | ExpiryResult.changed ↦ if leb_ℤ t now then none else some (record e { expiry = some t })
          | _ ↦ some e
        ]
        else view now j s)
unfolding set_unix_time_expiry
view-applied now t key j r e x s v here shown = elim (Option-cases (Table.get j s.store)) [
  | inl f ↦ ground (arith, str_beq_iff key j)
  | inr (p, f) ↦
      ground (arith, v.unshared key j r, str_beq_iff key j, ==_iff r p, get-put r p t s.expires)
]

-- What EvaluateAndSetExpiry does to a key that shows an entry, or shows none.
abbrev pub after_expire : Option Entry → ℤ → ℤ → List Str → ExpiryResult × Option Entry
after_expire none now t cs = (ExpiryResult.unchanged, none)
after_expire (some e) now t cs =
    let x = outcome e.expiry t cs in
    (
      x,
      elim x [
        | ExpiryResult.changed ↦ if leb_ℤ t now then none else some (record e { expiry = some t })
        | _ ↦ some e
      ],
    )

hidden-after_expire :
    (now t : ℤ) (cs : List Str) (key j : Str) (s s' : Store)
    → view now key s ≡ none
    → view now j s' ≡ view now j s
    → (ExpiryResult.unchanged ≡ (after_expire (view now key s) now t cs).0)
      × (view now j s'
          ≡ (if str_beq key j then (after_expire (view now key s) now t cs).1 else view now j s))
hidden-after_expire now t cs key j s s' h g = (
  sym (ap (λ w. (after_expire w now t cs).0) h),
  g
      ∙ ground (arith, str_beq_iff key j)
      ∙ sym (ap (λ w. if str_beq key j then (after_expire w now t cs).1 else view now j s) h),
)

-- The entry of an object.
abbrev entry_of : ℕ → Store → Entry
entry_of r s = record {
  value = (s.objs r).value;
  type = (s.objs r).type;
  expiry = Table.get r s.expires;
}

-- On a well-formed store EvaluateAndSetExpiry does nothing to a key that shows no entry;
-- otherwise the sub-commands decide together by their conflicts and by whether any one lets the
-- new time in, the key then has that time or is gone where it is past, and no other key changes.
pub evaluate_and_set_expiry-view :
    (now t : ℤ) (cs : List Str) (key j : Str) (s : Store)
    → IsValid s
    → let o = evaluate_and_set_expiry now cs t key s in
      (o.0 ≡ (after_expire (view now key s) now t cs).0)
      × (view now j o.1
          ≡ (if str_beq key j then (after_expire (view now key s) now t cs).1 else view now j s))
unfolding evaluate_and_set_expiry get touch_obj
evaluate_and_set_expiry-view now t cs key j s v = by_lookup (get_helper-Lookup now key true s)
  where
    by_lookup :
        {o : Option ℕ × Store}
        → Lookup now key true s o
        → ((evaluate_found cs t o.0 o.1).0 ≡ (after_expire (view now key s) now t cs).0)
          × (view now j (evaluate_found cs t o.0 o.1).1 ≡ (
              if str_beq key j then (after_expire (view now key s) now t cs).1 else view now j s))
    by_lookup (absent f) =
        let h = Lookup-view {now = now} {k = key} {touch = true} {s = s} j (absent f) v in
        hidden-after_expire now t cs key j s s (h.1) refl
    by_lookup (gone r f x) =
        let h = Lookup-view {now = now} {k = key} {touch = true} {s = s} j (gone r f x) v in
        hidden-after_expire now t cs key j s (delete_key del_cmd key (some r) s).1 (h.1) (h.0)
    by_lookup (found r f x) =
        let s' = touch_obj now r s in
        let e = entry_of r s in
        let out = outcome e.expiry t cs in
        let h : view now key s ≡ some e = ground (arith, has_expired-eq-is_past now r s) in
        let h' : view now key s' ≡ some e = view-touch_obj now now key r s ∙ h in
        let q : evaluate_found cs t (some r) s' ≡ (out, applied out r t s') =
          evaluate_found-outcome cs t r s' in
        (
          ap (λ o. o.0) q ∙ sym (ap (λ w. (after_expire w now t cs).0) h),
          ap (λ o. view now j o.1) q
              ∙ view-applied now t key j r e out s' (touch_obj-IsValid now r s v)
                  (unfold touch_obj in f) h'
              ∙ ap (λ w. if str_beq key j then (after_expire (some e) now t cs).1 else w)
                  (view-touch_obj now now j r s)
              ∙ sym
                  (ap (λ w. if str_beq key j then (after_expire w now t cs).1 else view now j s) h),
        )
