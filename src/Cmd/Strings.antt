-- ===== src/Cmd/Strings.antt =====
-- SET, GET, GETSET, GETDEL and GETEX: internal/cmd/cmd_set.go, cmd_get.go, cmd_getset.go,
-- cmd_getdel.go, cmd_getex.go. A handler takes the arguments and the shard's store.
pub mod Laws
pub mod Reads
pub mod SetGet
use dice_db_distributed_syst.Prelude.{
  ℕ, Bool, true, false, not, ◌&&◌, ◌||◌, Option, none, some, List, [], ◌∷◌, arith, if◌then◌else◌,
  Str, codes, nat_eq, str_eq,
}
use dice_db_distributed_syst.Prelude.Int.{ℤ, negsuc, eqb_ℤ}
use dice_db_distributed_syst.Object.{Obj}
use dice_db_distributed_syst.Store.State.{Store, PutOptions, set_expiry}
use dice_db_distributed_syst.Store.Expiry.{del_expiry}
use dice_db_distributed_syst.Store.Delete.{del_cmd}
use dice_db_distributed_syst.Store.Put.{put, put_helper}
use dice_db_distributed_syst.Store.Access.{get, get_no_touch, get_del}
use dice_db_distributed_syst.Wire.{
  Response, Reply, Run, panic, ◌>>=◌, done, fail, wrong_argument_count, invalid_syntax,
}
use dice_db_distributed_syst.Cmd.Env.{Env, create_object_from_value, new_value_res, deref, answered}
use dice_db_distributed_syst.Cmd.Params.{
  ParamMap, has, xx, nx, keepttl, persist, parse_params, getex_params, has_expiry, expiry_conflict,
  Duration, ms, wrong, ex_duration_ms,
}

abbrev pub set_cmd : Str
set_cmd = codes "SET"

abbrev pub is_nil : Option ℕ → Bool
is_nil none = true
is_nil (some _) = false

-- evalSET once the key has been looked up; SETResOKRes also where the option says not to set.
unfoldable pub set_found : Env → ℤ → Str → Str → ParamMap → ℤ → Option ℕ → Store → Store
unfolding create_object_from_value put_helper
set_found env now key value m d existing s =
    if has xx m && is_nil existing
    then s
    else if has nx m && not (is_nil existing)
    then s
    else let (r, s') = create_object_from_value env now value d s in
      put_helper now key r (record { keep_ttl = has keepttl m; put_cmd = set_cmd }) s'

-- evalSET from the lookup of the key on.
unfoldable pub set_value : Env → ℤ → Str → Str → ParamMap → ℤ → Store → Store
unfolding set_found get
set_value env now key value m d s =
    let (existing, s') = get now key s in set_found env now key value m d existing s'

unfoldable pub incompatible : ParamMap → Bool
unfolding expiry_conflict has_expiry
incompatible m = expiry_conflict m || has xx m && has nx m || has keepttl m && has_expiry m

-- evalSET once the options are read.
unfoldable pub set_with : Env → ℤ → Str → Str → ParamMap → List Str → Store → Reply × Store
unfolding set_value incompatible ex_duration_ms
set_with env now key value m (_ ∷ _) s = (fail Response.empty (invalid_syntax set_cmd), s)
set_with env now key value m [] s =
    if incompatible m
    then (fail Response.empty (invalid_syntax set_cmd), s)
    else elim (ex_duration_ms set_cmd m now) [
      | wrong e ↦ (fail Response.empty e, s)
      | ms d ↦ (done Response.empty, set_value env now key value m d s)
    ]

unfoldable pub eval_set : Env → ℤ → List Str → Store → Run (Reply × Store)
unfolding set_with parse_params
eval_set env now (key ∷ value ∷ options) s = do
  (m, others) ← parse_params options
  Run.ok (set_with env now key value m others s)
eval_set env now _ s = Run.ok (fail Response.empty (wrong_argument_count set_cmd), s)

unfoldable pub eval_get : Env → ℤ → List Str → Store → Run (Reply × Store)
unfolding get new_value_res
eval_get env now (key ∷ []) s =
    let (o, s') = get now key s in answered (new_value_res env (deref s' o)) s'
eval_get env now _ s = Run.ok (fail (Response.value []) (wrong_argument_count (codes "GET")), s)

unfoldable pub eval_getset : Env → ℤ → List Str → Store → Run (Reply × Store)
unfolding get new_value_res create_object_from_value put
eval_getset env now (key ∷ value ∷ []) s =
    let (o, s₁) = get now key s in
    let (r, s₂) = create_object_from_value env now value (negsuc 0) s₁ in
    let s₃ = put now key r s₂ in answered (new_value_res env (deref s₃ o)) s₃
eval_getset env now _ s =
    Run.ok (fail (Response.value []) (wrong_argument_count (codes "GETSET")), s)

unfoldable pub eval_getdel : Env → ℤ → List Str → Store → Run (Reply × Store)
unfolding get_no_touch get_del new_value_res
eval_getdel env now (key ∷ []) s =
    let (o, s₁) = get_no_touch now key s in
    elim o [
      | none ↦ Run.ok (done (Response.value []), s₁)
      | some _ ↦
          let (o', s₂) = get_del now del_cmd key s₁ in answered (new_value_res env (deref s₂ o')) s₂
    ]
eval_getdel env now _ s =
    Run.ok (fail (Response.value []) (wrong_argument_count (codes "GETDEL")), s)

abbrev getex_cmd : Str
getex_cmd = codes "GETEX"

-- evalGETEX from the lookup of the key on.
unfoldable pub getex_value : Env → ℤ → Str → ParamMap → ℤ → Store → Run (Reply × Store)
unfolding get del_expiry set_expiry new_value_res
getex_value env now key m d s =
    let (o, s₁) = get now key s in
    elim o [
      | none ↦ Run.ok (done (Response.value []), s₁)
      | some r ↦
          let s₂ =
            if has persist m
            then del_expiry r s₁
            else if eqb_ℤ d (negsuc 0)
            then s₁
            else set_expiry now r d s₁ in
          answered (new_value_res env (some (s₂.objs r))) s₂
    ]

unfoldable pub getex_with : Env → ℤ → Str → ParamMap → Store → Run (Reply × Store)
unfolding getex_value expiry_conflict has_expiry ex_duration_ms
getex_with env now key m s =
    if expiry_conflict m || has persist m && has_expiry m
    then Run.ok (fail (Response.value []) (invalid_syntax getex_cmd), s)
    else elim (ex_duration_ms getex_cmd m now) [
      | wrong e ↦ Run.ok (fail (Response.value []) e, s)
      | ms d ↦ getex_value env now key m d s
    ]

unfoldable pub eval_getex : Env → ℤ → List Str → Store → Run (Reply × Store)
unfolding getex_with getex_params
eval_getex env now [] s = Run.ok (fail (Response.value []) (wrong_argument_count getex_cmd), s)
eval_getex env now (key ∷ options) s = do (m, _) ← getex_params options; getex_with env now key m s
