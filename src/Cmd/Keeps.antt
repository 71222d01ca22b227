-- ===== src/Cmd/Keeps.antt =====
-- SET, INCR, INCRBY, DECR and DECRBY (internal/cmd) keep a store well formed.
use dice_db_distributed_syst.Prelude.{
  ℕ, sym, true, not, ◌&&◌, Option, none, some, List, [], ◌∷◌, arith, if_both, Str, nat_eq, str_eq,
}
use dice_db_distributed_syst.Prelude.Int.{ℤ, negsuc}
use mathlib.Core.Path.{subst}
use dice_db_distributed_syst.Object.{Obj, ObjectType, Value, wrong_type}
use dice_db_distributed_syst.Store.State.{
  Store, PutOptions, default_put_options, new_obj, write_obj, set_expiry,
}
use dice_db_distributed_syst.Wire.{Reply, Response, done, fail}
use dice_db_distributed_syst.Store.Put.{put, put_helper}
use dice_db_distributed_syst.Store.Access.{get, get_helper}
use dice_db_distributed_syst.Store.Invariant.{IsValid}
use dice_db_distributed_syst.Store.Invariant.Basic.{new_obj-IsValid}
use dice_db_distributed_syst.Store.Invariant.Put.{put_helper-IsValid}
use dice_db_distributed_syst.Store.Invariant.Access.{get_helper-IsValid}
use dice_db_distributed_syst.Store.View.Create.{IsFree-fresh}
use dice_db_distributed_syst.Cmd.Env.{Env}
use dice_db_distributed_syst.Cmd.Params.{
  ParamMap, has, xx, nx, keepttl, ex_duration_ms, Duration, ms, wrong,
}
use dice_db_distributed_syst.Cmd.Strings.{
  set_found, set_value, set_with, set_cmd, is_nil, incompatible,
}
use dice_db_distributed_syst.Cmd.Strings.Laws.{typed, create_object_from_value-typed}
use dice_db_distributed_syst.Cmd.Counter.{IncrResult, incr_found, do_incr}

-- A new object goes under a key.
pub put_fresh-IsValid :
    (now d : ℤ) (value : Value) (type : ObjectType) (key : Str) (options : PutOptions) (s : Store)
    → IsValid s
    → let p = new_obj now value d type s in IsValid (put_helper now key p.0 options p.1)
unfolding new_obj write_obj set_expiry
put_fresh-IsValid now d value type key options s v =
    let p = new_obj now value d type s in
    put_helper-IsValid now key s.next options p.1 (new_obj-IsValid now value d type s v)
      (ground arith) (λ j h. absurd (IsFree-fresh now d value type s v j h))

set_found-IsValid :
    (env : Env) (now : ℤ) (key value : Str) (m : ParamMap) (d : ℤ) (o : Option ℕ) (s : Store)
    → IsValid s
    → IsValid (set_found env now key value m d o s)
unfolding set_found
set_found-IsValid env now key value m d o s v = if_both IsValid (has xx m && is_nil o) v (
    if_both IsValid (has nx m && not (is_nil o)) v (
      subst
        (λ p.
          IsValid
            (put_helper now key p.0 (record { keep_ttl = has keepttl m; put_cmd = set_cmd }) p.1))
        (sym (create_object_from_value-typed env now value d s))
        (put_fresh-IsValid now d (typed env value).0 (typed env value).1 key _ s v)))

pub set_value-IsValid :
    (env : Env) (now : ℤ) (key value : Str) (m : ParamMap) (d : ℤ) (s : Store)
    → IsValid s
    → IsValid (set_value env now key value m d s)
unfolding set_value get
set_value-IsValid env now key value m d s v =
    set_found-IsValid env now key value m d (get_helper now key true s).0
      (get_helper now key true s).1 (get_helper-IsValid now key true s v)

-- SET, once its options are read, keeps a store well formed: on errors, where it is blocked, and
-- where it sets its key.
pub set_with-IsValid :
    (env : Env) (now : ℤ) (key value : Str) (m : ParamMap) (others : List Str) (s : Store)
    → IsValid s
    → IsValid (set_with env now key value m others s).1
unfolding set_with set_value get
set_with-IsValid env now key value m (_ ∷ _) s v = v
set_with-IsValid env now key value m [] s v =
    if_both (λ (p : Reply × Store). IsValid p.1) (incompatible m) v
      (by_duration (ex_duration_ms set_cmd m now))
  where
    by_duration :
        (x : Duration)
        → IsValid
            (elim x as (λ _. Reply × Store) [
              | wrong e ↦ (fail Response.empty e, s)
              | ms d ↦ (done Response.empty, set_value env now key value m d s)
            ]).1
    by_duration (wrong e) = v
    by_duration (ms d) = set_value-IsValid env now key value m d s v

write_obj-IsValid : (r : ℕ) (o : Obj) (s : Store) → IsValid s → IsValid (write_obj r o s)
unfolding write_obj
write_obj-IsValid r o s v = record {
  keys = v.keys;
  times = v.times;
  counted = v.counted;
  allocated = v.allocated;
  unshared = v.unshared;
  dated = v.dated;
}

-- INCR and its kin keep a store well formed, whether their key is there, is not, or has another
-- type.
pub do_incr-IsValid :
    (now : ℤ) (key : Str) (delta : ℤ) (s : Store) → IsValid s → IsValid (do_incr now key delta s).1
unfolding do_incr get incr_found put
do_incr-IsValid now key delta s v =
    by_found (get_helper now key true s).0 (get_helper now key true s).1
      (get_helper-IsValid now key true s v)
  where
    by_found : (o : Option ℕ) (s' : Store) → IsValid s' → IsValid (incr_found now key delta o s').1
    by_found none s' v' =
        put_fresh-IsValid now (negsuc 0) (Value.int delta) ObjectType.int key default_put_options s'
          v'
    by_found (some r) s' v' =
        if_both (λ (p : IncrResult × Store). IsValid p.1)
          (wrong_type (s'.objs r).type ObjectType.int) v' (write_obj-IsValid r _ s' v')
