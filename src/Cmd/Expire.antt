-- ===== src/Cmd/Expire.antt =====
-- EXPIRE, EXPIREAT, EXPIRETIME and TTL: internal/cmd/cmd_expire.go, cmd_expireat.go,
-- cmd_expiretime.go, cmd_ttl.go.
pub mod Laws
use dice_db_distributed_syst.Prelude.{
  ℕ, true, false, ◌||◌, Option, none, some, List, [], ◌∷◌, arith, if◌then◌else◌, Str, codes, nat_eq,
  str_eq,
}
use dice_db_distributed_syst.Prelude.Int.{ℤ, pos, negsuc, ◌+ℤ◌, ◌-ℤ◌, ◌*ℤ◌, ltb_ℤ, wrap64, div_ℤ}
use dice_db_distributed_syst.Store.State.{Store}
use dice_db_distributed_syst.Store.Expiry.{get_expiry}
use dice_db_distributed_syst.Store.Access.{get}
use dice_db_distributed_syst.Store.Sweep.{ExpiryResult, evaluate_and_set_expiry}
use dice_db_distributed_syst.Strconv.{parse_int}
use dice_db_distributed_syst.Wire.{
  Response, Reply, Run, panic, CmdError, done, fail, wrong_argument_count, invalid_expire_time,
  unsupported_option, gt_lt_conflict, nx_conflict,
}

-- The reply to what EvaluateAndSetExpiry returns.
abbrev pub expiry_reply : ExpiryResult → Reply
expiry_reply ExpiryResult.changed = done (Response.changed true)
expiry_reply ExpiryResult.unchanged = done (Response.changed false)
expiry_reply ExpiryResult.unsupported_option = fail (Response.changed false) unsupported_option
expiry_reply ExpiryResult.gt_lt_conflict = fail (Response.changed false) gt_lt_conflict
expiry_reply ExpiryResult.nx_conflict = fail (Response.changed false) nx_conflict

-- evalEXPIRE from the lookup of the key on; the sum of the seconds with the clock wraps around.
unfoldable pub expire_found : ℤ → Str → ℤ → List Str → Option ℕ → Store → Reply × Store
unfolding evaluate_and_set_expiry
expire_found now key seconds options none s = (done (Response.changed false), s)
expire_found now key seconds options (some _) s =
    let t = wrap64 (now +ℤ wrap64 (seconds *ℤ pos 1000)) in
    let (r, s') = evaluate_and_set_expiry now options t key s in (expiry_reply r, s')

-- evalEXPIRE with the seconds read.
unfoldable pub expire_in : ℤ → Str → ℤ → List Str → Store → Reply × Store
unfolding get expire_found
expire_in now key seconds options s =
    let (o, s') = get now key s in expire_found now key seconds options o s'

unfoldable pub eval_expire : ℤ → List Str → Store → Reply × Store
unfolding expire_in
eval_expire now (key ∷ amount ∷ options) s = elim (parse_int amount) [
  | none ↦ (fail (Response.changed false) (invalid_expire_time (codes "EXPIRE")), s)
  | some seconds ↦
      if ltb_ℤ seconds (pos 0)
      then (fail (Response.changed false) (invalid_expire_time (codes "EXPIRE")), s)
      else expire_in now key seconds options s
]
eval_expire now _ s = (fail (Response.changed false) (wrong_argument_count (codes "EXPIRE")), s)

-- `limit` is EXPIREATMaxAbsTimestamp, ten years from the time when the server started.
unfoldable pub eval_expireat : ℤ → ℤ → List Str → Store → Reply × Store
unfolding evaluate_and_set_expiry
eval_expireat limit now (key ∷ amount ∷ options) s = elim (parse_int amount) [
  | none ↦ (fail (Response.changed false) (invalid_expire_time (codes "EXPIREAT")), s)
  | some t ↦
      if ltb_ℤ t (pos 0) || ltb_ℤ limit t
      then (fail (Response.changed false) (invalid_expire_time (codes "EXPIREAT")), s)
      else let (r, s') = evaluate_and_set_expiry now options (wrap64 (t *ℤ pos 1000)) key s in
        (expiry_reply r, s')
]
eval_expireat limit now _ s =
    (fail (Response.changed false) (wrong_argument_count (codes "EXPIREAT")), s)

-- evalEXPIRETIME reads its first argument with no test.
unfoldable pub eval_expiretime : ℤ → List Str → Store → Run (Reply × Store)
unfolding get get_expiry
eval_expiretime now [] s = panic
eval_expiretime now (key ∷ _) s =
    let (o, s') = get now key s in
    elim o [
      | none ↦ Run.ok (done (Response.number (negsuc 1)), s')
      | some r ↦ elim (get_expiry r s') [
        | none ↦ Run.ok (done (Response.number (negsuc 0)), s')
        | some t ↦ Run.ok (done (Response.number (div_ℤ t 1000)), s')
      ]
    ]

-- The answer of evalTTL from the lookup of the key on.
unfoldable pub ttl_reply : ℤ → Option ℕ → Store → Reply
unfolding get_expiry
ttl_reply now none s = done (Response.number (negsuc 1))
ttl_reply now (some r) s = elim (get_expiry r s) [
  | none ↦ done (Response.number (negsuc 0))
  | some t ↦ done (Response.number (div_ℤ (wrap64 (t -ℤ now)) 1000))
]

unfoldable pub eval_ttl : ℤ → List Str → Store → Reply × Store
unfolding get ttl_reply
eval_ttl now (key ∷ []) s = let (o, s') = get now key s in (ttl_reply now o s', s')
eval_ttl now _ s = (fail (Response.number (pos 0)) (wrong_argument_count (codes "TTL")), s)
