-- ===== src/Cmd/Strings/Reads.antt =====
-- GET (internal/cmd/cmd_get.go) against the view of a store.
use dice_db_distributed_syst.Prelude.{
  ℕ, ◌≡◌, refl, sym, ap, ◌∙◌, true, Option, none, some, [], ◌∷◌, arith, ==_iff, Str, nat_eq, str_eq,
}
use dice_db_distributed_syst.Prelude.Int.{ℤ}
use dice_db_distributed_syst.Table
use dice_db_distributed_syst.Store.State.{Store, touch_obj, write_obj}
use dice_db_distributed_syst.Store.Access.{get}
use dice_db_distributed_syst.Store.Invariant.{IsValid}
use dice_db_distributed_syst.Store.Invariant.Access.{Lookup, absent, gone, found, get_helper-Lookup}
use dice_db_distributed_syst.Store.View.{Entry, view}
use dice_db_distributed_syst.Store.View.Basic.{Lookup-view, has_expired-eq-is_past}
use dice_db_distributed_syst.Wire.{Run, panic, Response, Result, ok_result, err_result}
use dice_db_distributed_syst.Cmd.Env.{
  Env, value_text, get_wire_value_from_obj, new_value_res, deref, answered, unknown_object_text,
}
use dice_db_distributed_syst.Cmd.Strings.{eval_get}

-- The result that GET makes of what a key shows: of the value, or the empty text for no entry.
abbrev pub read_result : Env → Option Entry → Run Result
read_result env none = Run.ok (ok_result (Response.value []))
read_result env (some e) = elim (value_text env e.type e.value) [
  | panic ↦ panic
  | Run.ok none ↦ Run.ok (err_result unknown_object_text)
  | Run.ok (some t) ↦ Run.ok (ok_result (Response.value t))
]

touched-read :
    (env : Env) (now : ℤ) (r : ℕ) (s : Store)
    → new_value_res env (some ((touch_obj now r s).objs r)) ≡ new_value_res env (some (s.objs r))
unfolding new_value_res get_wire_value_from_obj touch_obj write_obj
touched-read env now r s = ground (arith, ==_iff r r)

shown-read :
    (env : Env) (r : ℕ) (s : Store) (t : Option ℤ)
    → new_value_res env (some (s.objs r))
      ≡ read_result env
          (some (record { value = (s.objs r).value; type = (s.objs r).type; expiry = t }))
unfolding new_value_res get_wire_value_from_obj
shown-read env r s t = refl

-- GET on a well-formed store reads what its key shows, and changes nothing that a client can see.
pub eval_get-view :
    (env : Env) (now : ℤ) (key j : Str) (s : Store)
    → IsValid s
    → (s' : Store) × (eval_get env now (key ∷ []) s
        ≡ answered (read_result env (view now key s)) s')
      × (view now j s' ≡ view now j s)
unfolding eval_get get new_value_res get_wire_value_from_obj touch_obj write_obj
eval_get-view env now key j s v = by_lookup (get_helper-Lookup now key true s)
  where
    by_found :
        {o : Option ℕ × Store}
        → Lookup now key true s o
        → new_value_res env (deref o.1 o.0) ≡ read_result env (view now key s)
    by_found (absent f) = sym (
        ap (read_result env)
          ((Lookup-view {now = now} {k = key} {touch = true} {s = s} j (absent f) v).1))
    by_found (gone r f x) = sym (
        ap (read_result env)
          ((Lookup-view {now = now} {k = key} {touch = true} {s = s} j (gone r f x) v).1))
    by_found (found r f x) =
        let t = Table.get r s.expires in
        let h : view now key s
            ≡ some (record { value = (s.objs r).value; type = (s.objs r).type; expiry = t }) =
          ground (arith, has_expired-eq-is_past now r s) in
        touched-read env now r s ∙ shown-read env r s t ∙ sym (ap (read_result env) h)

    by_lookup :
        {o : Option ℕ × Store}
        → Lookup now key true s o
        → (s' : Store) × (answered (new_value_res env (deref o.1 o.0)) o.1
            ≡ answered (read_result env (view now key s)) s')
          × (view now j s' ≡ view now j s)
    by_lookup {o} l = (o.1, ap (λ r. answered r o.1) (by_found l), (Lookup-view j l v).0)
