-- ===== src/Cmd/Hash.antt =====
-- HSET, HGET and HGETALL: internal/cmd/cmd_hset.go, cmd_hget.go, cmd_hgetall.go. An SSMap is a map of
-- Go, modelled as an association list; HSET writes into the map of the key's object and then stores
-- the map in a new object, so the object that it replaces is never read again.
pub mod Laws
use dice_db_distributed_syst.Prelude.{
  ℕ, suc, ◌%◌, Bool, true, false, Option, none, some, List, [], ◌∷◌, arith, ◌==◌, if◌then◌else◌,
  length, Str, codes, nat_eq, str_eq,
}
use dice_db_distributed_syst.Prelude.Int.{ℤ, pos, negsuc}
use dice_db_distributed_syst.Table
use dice_db_distributed_syst.Object.{Obj, ObjectType, Value, wrong_type}
use dice_db_distributed_syst.Store.State.{Store, new_obj}
use dice_db_distributed_syst.Store.Put.{put}
use dice_db_distributed_syst.Store.Access.{get}
use dice_db_distributed_syst.Wire.{
  Response, Reply, Run, panic, CmdError, done, fail, wrong_argument_count, wrong_type_operation,
}

abbrev pub SsMap : Type 0
SsMap = List (Str × Str)

-- SSMap.Get and SSMap.Set
unfoldable pub ss_get : Str → SsMap → Str × Bool
ss_get k h = elim (Table.load k h) [ none ↦ ([], false) | some v ↦ (v, true) ]

unfoldable pub ss_set : Str → Str → SsMap → (Str × Bool) × SsMap
ss_set k v h =
    (elim (Table.load k h) [ none ↦ ([], false) | some old ↦ (old, true) ], Table.upsert k v h)

-- `obj.Value.(SSMap)` with the second result; the one-result form panics in the other cases.
abbrev pub as_map : Value → Option SsMap
as_map (Value.ss_map h) = some h
as_map _ = none

-- The loop over the pairs: the number of new fields, and the map. An odd argument was refused before.
unfoldable pub hset_loop : List Str → SsMap → ℕ × SsMap
hset_loop (k ∷ v ∷ kvs) h =
    let (n, h') = hset_loop kvs (Table.upsert k v h) in
    (elim (Table.load k h) [ none ↦ suc n | some _ ↦ n ], h')
hset_loop _ h = (0, h)

-- The map to write into.
pub data Target : Type 0 where
  found : SsMap → Target
  mistyped cast_panic : Target

unfoldable pub hset_target : Option Obj → Target
unfolding wrong_type
hset_target none = found []
hset_target (some o) =
    if wrong_type o.type ObjectType.ss_map
    then mistyped
    else elim (as_map o.value) [ none ↦ cast_panic | some h ↦ found h ]

abbrev pub object_of : Store → Option ℕ → Option Obj
object_of s none = none
object_of s (some r) = some (s.objs r)

unfoldable pub hset_into : ℤ → Str → List Str → Target → Store → Run (Reply × Store)
unfolding hset_loop new_obj put
hset_into now key kvs mistyped s = Run.ok (fail (Response.number (pos 0)) wrong_type_operation, s)
hset_into now key kvs cast_panic s = panic
hset_into now key kvs (found h) s =
    if length kvs % 2 == 1
    then Run.ok (fail (Response.number (pos 0)) (wrong_argument_count (codes "HSET")), s)
    else let (n, h') = hset_loop kvs h in
      let (r, s₁) = new_obj now (Value.ss_map h') (negsuc 0) ObjectType.ss_map s in
      Run.ok (done (Response.number (pos n)), put now key r s₁)

unfoldable pub eval_hset : ℤ → List Str → Store → Run (Reply × Store)
unfolding get hset_target hset_into
eval_hset now [] s = panic
eval_hset now (key ∷ kvs) s =
    let (o, s') = get now key s in hset_into now key kvs (hset_target (object_of s' o)) s'

unfoldable pub eval_hget : ℤ → List Str → Store → Run (Reply × Store)
unfolding get ss_get
eval_hget now (key ∷ field ∷ _) s =
    let (o, s') = get now key s in
    elim o [
      | none ↦ Run.ok (done (Response.value []), s')
      | some r ↦ elim (as_map (s'.objs r).value) [
        | none ↦ Run.ok (fail (Response.value []) wrong_type_operation, s')
        | some h ↦
            let (v, ok) = ss_get field h in
            Run.ok (done (Response.value (if ok then v else [])), s')
      ]
    ]
eval_hget now _ s = panic

abbrev hgetall_reply : Target → Run Reply
hgetall_reply (found h) = Run.ok (done (Response.elements h))
hgetall_reply mistyped = Run.ok (fail (Response.elements []) wrong_type_operation)
hgetall_reply cast_panic = panic

-- A missing key and an empty map give the empty answer.
unfoldable pub eval_hgetall : ℤ → List Str → Store → Run (Reply × Store)
unfolding get hset_target
eval_hgetall now [] s = panic
eval_hgetall now (key ∷ _) s =
    let (o, s') = get now key s in
    elim (hgetall_reply (hset_target (object_of s' o))) [
      | panic ↦ panic
      | Run.ok r ↦ Run.ok (r, s')
    ]
