-- ===== src/Cmd/Counter.antt =====
-- INCR, INCRBY, DECR and DECRBY: doIncr of internal/cmd/cmd_incrby.go and its four callers.
-- The addition of int64 wraps around; the source makes no test for overflow.
pub mod Laws
use dice_db_distributed_syst.Prelude.{
  ℕ, Option, none, some, List, [], ◌∷◌, arith, if◌then◌else◌, Str, codes, nat_eq, str_eq,
}
use dice_db_distributed_syst.Prelude.Int.{ℤ, pos, negsuc, ◌+ℤ◌, ◌-ℤ◌, wrap64}
use dice_db_distributed_syst.Object.{Obj, ObjectType, Value, wrong_type}
use dice_db_distributed_syst.Store.State.{Store, new_obj, write_obj}
use dice_db_distributed_syst.Store.Put.{put}
use dice_db_distributed_syst.Store.Access.{get}
use dice_db_distributed_syst.Strconv.{parse_int}
use dice_db_distributed_syst.Wire.{
  Response, Reply, CmdError, done, fail, wrong_argument_count, integer_out_of_range,
  wrong_type_operation,
}

-- `oldValue, _ = obj.Value.(int64)`: zero for another Go type.
abbrev pub int_value : Value → ℤ
int_value (Value.int n) = n
int_value _ = pos 0

-- The old and the new value, or the error.
pub data IncrResult : Type 0 where
  values : ℤ → ℤ → IncrResult
  failed : CmdError → IncrResult

-- doIncr once the key has been looked up. The object is changed in place: it keeps its expiry time.
unfoldable pub incr_found : ℤ → Str → ℤ → Option ℕ → Store → IncrResult × Store
unfolding new_obj put write_obj wrong_type
incr_found now key delta none s =
    let (r, s₁) = new_obj now (Value.int delta) (negsuc 0) ObjectType.int s in
    (values (pos 0) delta, put now key r s₁)
incr_found now key delta (some r) s =
    let o = s.objs r in
    let old = int_value o.value in
    let new = wrap64 (old +ℤ delta) in
    if wrong_type o.type ObjectType.int
    then (failed wrong_type_operation, s)
    else (values old new, write_obj r (record o { value = Value.int new }) s)

unfoldable pub do_incr : ℤ → Str → ℤ → Store → IncrResult × Store
unfolding incr_found get
do_incr now key delta s = let (o, s₁) = get now key s in incr_found now key delta o s₁

abbrev pub incr_reply : IncrResult → Reply
incr_reply (values old new) = done (Response.number new)
incr_reply (failed e) = fail (Response.number (pos 0)) e

unfoldable pub eval_incr : ℤ → List Str → Store → Reply × Store
unfolding do_incr
eval_incr now (key ∷ []) s = let (r, s') = do_incr now key (pos 1) s in (incr_reply r, s')
eval_incr now _ s = (fail (Response.number (pos 0)) (wrong_argument_count (codes "INCR")), s)

unfoldable pub eval_decr : ℤ → List Str → Store → Reply × Store
unfolding do_incr
eval_decr now (key ∷ []) s = let (r, s') = do_incr now key (negsuc 0) s in (incr_reply r, s')
eval_decr now _ s = (fail (Response.number (pos 0)) (wrong_argument_count (codes "DECR")), s)

unfoldable pub eval_incrby : ℤ → List Str → Store → Reply × Store
unfolding do_incr
eval_incrby now (key ∷ amount ∷ []) s = elim (parse_int amount) [
  | none ↦ (fail (Response.number (pos 0)) integer_out_of_range, s)
  | some delta ↦ let (r, s') = do_incr now key delta s in (incr_reply r, s')
]
eval_incrby now _ s = (fail (Response.number (pos 0)) (wrong_argument_count (codes "INCRBY")), s)

-- `-delta` wraps around at the least int64.
unfoldable pub eval_decrby : ℤ → List Str → Store → Reply × Store
unfolding do_incr
eval_decrby now (key ∷ amount ∷ []) s = elim (parse_int amount) [
  | none ↦ (fail (Response.number (pos 0)) integer_out_of_range, s)
  | some delta ↦ let (r, s') = do_incr now key (wrap64 (pos 0 -ℤ delta)) s in (incr_reply r, s')
]
eval_decrby now _ s = (fail (Response.number (pos 0)) (wrong_argument_count (codes "DECRBY")), s)
