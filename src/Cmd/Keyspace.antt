-- ===== src/Cmd/Keyspace.antt =====
-- DEL, EXISTS, TYPE, KEYS and FLUSHDB on one shard: internal/cmd/cmd_del.go, cmd_exists.go,
-- cmd_type.go, cmd_keys.go, cmd_flushdb.go.
pub mod Laws
use dice_db_distributed_syst.Prelude.{
  ℕ, ◌+◌, Bool, true, false, Option, none, some, List, [], ◌∷◌, arith, if◌then◌else◌, Str, codes,
  nat_eq, str_eq,
}
use dice_db_distributed_syst.Prelude.Int.{ℤ, pos}
use dice_db_distributed_syst.Object.{type_name}
use dice_db_distributed_syst.Store.State.{Store, reset}
use dice_db_distributed_syst.Store.Delete.{del, del_cmd}
use dice_db_distributed_syst.Store.Access.{get, get_no_touch, keys}
use dice_db_distributed_syst.Wire.{Response, Reply, done, fail, wrong_argument_count, bad_pattern}

abbrev pub one_if : Bool → ℕ
one_if true = 1
one_if false = 0

-- The loop of evalDEL. A key that has expired and was not removed yet counts as deleted.
unfoldable pub del_loop : List Str → Store → ℕ × Store
unfolding del
del_loop [] s = (0, s)
del_loop (k ∷ ks) s =
    let (ok, s₁) = del del_cmd k s in let (n, s₂) = del_loop ks s₁ in (one_if ok + n, s₂)

unfoldable pub eval_del : List Str → Store → Reply × Store
unfolding del_loop
eval_del [] s = (fail (Response.number (pos 0)) (wrong_argument_count del_cmd), s)
eval_del (k ∷ ks) s = let (n, s') = del_loop (k ∷ ks) s in (done (Response.number (pos n)), s')

abbrev pub is_found : Option ℕ → Bool
is_found none = false
is_found (some _) = true

unfoldable pub exists_loop : ℤ → List Str → Store → ℕ × Store
unfolding get_no_touch
exists_loop now [] s = (0, s)
exists_loop now (k ∷ ks) s =
    let (o, s₁) = get_no_touch now k s in
    let (n, s₂) = exists_loop now ks s₁ in (one_if (is_found o) + n, s₂)

unfoldable pub eval_exists : ℤ → List Str → Store → Reply × Store
unfolding exists_loop
eval_exists now [] s = (fail (Response.number (pos 0)) (wrong_argument_count (codes "EXISTS")), s)
eval_exists now (k ∷ ks) s =
    let (n, s') = exists_loop now (k ∷ ks) s in (done (Response.number (pos n)), s')

abbrev pub none_text : Str
none_text = codes "none"

unfoldable pub eval_type : ℤ → List Str → Store → Reply × Store
unfolding get type_name
eval_type now (key ∷ []) s =
    let (o, s') = get now key s in
    elim o [
      | none ↦ (done (Response.value none_text), s')
      | some r ↦ (done (Response.value (type_name (s'.objs r).type)), s')
    ]
eval_type now _ s = (fail (Response.value none_text) (wrong_argument_count (codes "TYPE")), s)

unfoldable pub eval_keys : (Str → Str → Option Bool) → List Str → Store → Reply
unfolding keys
eval_keys path_match (pattern ∷ []) s =
    let (ks, failed) = keys path_match pattern s in
    if failed then fail (Response.strings []) bad_pattern else done (Response.strings ks)
eval_keys path_match _ s = fail (Response.strings []) (wrong_argument_count (codes "KEYS"))

unfoldable pub eval_flushdb : List Str → Store → Reply × Store
unfolding reset
eval_flushdb [] s = (done Response.empty, reset s)
eval_flushdb (_ ∷ _) s = (fail Response.empty (wrong_argument_count (codes "FLUSHDB")), s)
