-- ===== src/Cmd/Reach.antt =====
-- The stores that a shard reaches from NewStore (internal/store) by the operations of the store and
-- the commands that write to it (internal/cmd), in any order.
use dice_db_distributed_syst.Prelude.{ℕ, refl, Bool, Option, List, arith, Str, nat_eq, str_eq}
use dice_db_distributed_syst.Prelude.Int.{ℤ}
use dice_db_distributed_syst.Table
use dice_db_distributed_syst.Object.{ObjectType, Value}
use dice_db_distributed_syst.Store.State.{
  Store, PutOptions, CmdWatchEvent, Strategy, new_store, new_obj,
}
use dice_db_distributed_syst.Store.Put.{put_helper}
use dice_db_distributed_syst.Store.Access.{get_helper, get_del}
use dice_db_distributed_syst.Store.Delete.{del}
use dice_db_distributed_syst.Store.Evict.{evict}
use dice_db_distributed_syst.Store.Sweep.{delete_expired_keys, evaluate_and_set_expiry}
use dice_db_distributed_syst.Store.Invariant.{IsValid}
use dice_db_distributed_syst.Store.Invariant.Basic.{del-IsValid}
use dice_db_distributed_syst.Store.Invariant.Evict.{evict-IsValid}
use dice_db_distributed_syst.Store.Invariant.Access.{
  get_helper-IsValid, get_del-IsValid, delete_expired_keys-IsValid, evaluate_and_set_expiry-IsValid,
}
use dice_db_distributed_syst.Cmd.Env.{Env}
use dice_db_distributed_syst.Cmd.Params.{ParamMap}
use dice_db_distributed_syst.Cmd.Strings.{set_with}
use dice_db_distributed_syst.Cmd.Counter.{do_incr}
use dice_db_distributed_syst.Cmd.Keeps.{put_fresh-IsValid, set_with-IsValid, do_incr-IsValid}

pub data StoreStep : Store → Store → Type 0 where
  looks_up :
      (now : ℤ) (k : Str) (touch : Bool) (s : Store) → StoreStep s (get_helper now k touch s).1
  takes_out : (now : ℤ) (cmd k : Str) (s : Store) → StoreStep s (get_del now cmd k s).1
  deletes : (cmd k : Str) (s : Store) → StoreStep s (del cmd k s).1
  sweeps : (now : ℤ) (s : Store) → StoreStep s (delete_expired_keys now s)
  evicts : (now : ℤ) (n : ℕ) (s : Store) → StoreStep s (evict now n s).1
  expires :
      (now : ℤ) (cs : List Str) (t : ℤ) (k : Str) (s : Store)
      → StoreStep s (evaluate_and_set_expiry now cs t k s).1
  puts_new :
      (now d : ℤ) (value : Value) (type : ObjectType) (k : Str) (options : PutOptions) (s : Store)
      → StoreStep s
          (put_helper now k (new_obj now value d type s).0 options (new_obj now value d type s).1)
  sets :
      (env : Env) (now : ℤ) (k value : Str) (m : ParamMap) (others : List Str) (s : Store)
      → StoreStep s (set_with env now k value m others s).1
  counts : (now : ℤ) (k : Str) (delta : ℤ) (s : Store) → StoreStep s (do_incr now k delta s).1

pub data Reachable : Store → Type 0 where
  start :
      (watch : Option (List CmdWatchEvent)) (strategy : Option Strategy) (shard_id : ℕ)
      → Reachable (new_store watch strategy shard_id)
  step : {s t : Store} → Reachable s → StoreStep s t → Reachable t

new_store-IsValid :
    (watch : Option (List CmdWatchEvent)) (strategy : Option Strategy) (shard_id : ℕ)
    → IsValid (new_store watch strategy shard_id)
unfolding new_store Table.get Table.load
new_store-IsValid watch strategy shard_id = record {
  keys = tt;
  times = tt;
  counted = refl;
  allocated = λ k r e. absurd (ground arith);
  unshared = λ k j r e f. absurd (ground arith);
  dated = λ r t e. absurd (ground arith);
}

StoreStep-IsValid : {s t : Store} → StoreStep s t → IsValid s → IsValid t
StoreStep-IsValid (looks_up now k touch s) v = get_helper-IsValid now k touch s v
StoreStep-IsValid (takes_out now cmd k s) v = get_del-IsValid now cmd k s v
StoreStep-IsValid (deletes cmd k s) v = del-IsValid cmd k s v
StoreStep-IsValid (sweeps now s) v = delete_expired_keys-IsValid now s v
StoreStep-IsValid (evicts now n s) v = evict-IsValid now n s v
StoreStep-IsValid (expires now cs d k s) v = evaluate_and_set_expiry-IsValid now cs d k s v
StoreStep-IsValid (puts_new now d value type k options s) v =
    put_fresh-IsValid now d value type k options s v
StoreStep-IsValid (sets env now k value m others s) v =
    set_with-IsValid env now k value m others s v
StoreStep-IsValid (counts now k delta s) v = do_incr-IsValid now k delta s v

-- Every store that is reached from a new one by lookups, deletions, sweeps, evictions, changes of
-- an expiry time, puts of new objects, SET and INCR, in any order, is well formed: its key count
-- is the number of its keys, its pointers are allocated, and no two keys share an object.
pub Reachable-IsValid : (s : Store) → Reachable s → IsValid s
Reachable-IsValid s (start watch strategy shard_id) = new_store-IsValid watch strategy shard_id
Reachable-IsValid t (step {s = s} r e) = StoreStep-IsValid e (Reachable-IsValid s r)
