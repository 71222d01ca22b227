-- ===== src/Store/Sweep.antt =====
-- internal/store/expire.go: the active removal of expired keys, and EvaluateAndSetExpiry.
use dice_db_distributed_syst.Prelude.{
  ℕ, Bool, true, false, not, ◌&&◌, ◌||◌, Option, none, some, List, [], ◌∷◌, if◌then◌else◌, Str,
  codes, str_beq, nat_eq, str_eq,
}
use dice_db_distributed_syst.Prelude.Int.{ℤ, ltb_ℤ}
use dice_db_distributed_syst.Upper.{to_upper}
use dice_db_distributed_syst.Store.State.{Store, set_unix_time_expiry}
use dice_db_distributed_syst.Store.Expiry.{has_expired, get_expiry}
use dice_db_distributed_syst.Store.Delete.{del_by_ptr, del_cmd}
use dice_db_distributed_syst.Store.Access.{get}

-- The Range goes through the entries that the table has at its start.
unfoldable pub sweep_loop : ℤ → List (Str × ℕ) → Store → Store
sweep_loop now [] s = s
sweep_loop now ((k, r) ∷ l) s =
    sweep_loop now l (if has_expired now r s then (del_by_ptr del_cmd k s).1 else s)

-- deleteAllExpiredKeys and DeleteExpiredKeys
unfoldable pub delete_expired_keys : ℤ → Store → Store
unfolding sweep_loop
delete_expired_keys now s = sweep_loop now s.store.m s

pub data SubCommand : Type 0 where
  nx xx gt lt unsupported : SubCommand

-- The switch on strings.ToUpper of a sub-command.
unfoldable pub sub_command : Str → SubCommand
sub_command t =
    let u = to_upper t in
    if str_beq u (codes "NX")
    then nx
    else if str_beq u (codes "XX")
    then xx
    else if str_beq u (codes "GT")
    then gt
    else if str_beq u (codes "LT")
    then lt
    else unsupported

-- The variables of the loop over the sub-commands.
pub record Flags : Type 0 where
  pub nx_cmd : Bool
  pub xx_cmd : Bool
  pub gt_cmd : Bool
  pub lt_cmd : Bool
  pub should_set : Bool

abbrev pub no_flags : Flags
no_flags = record {
  nx_cmd = false;
  xx_cmd = false;
  gt_cmd = false;
  lt_cmd = false;
  should_set = false;
}

abbrev pub is_none : Option ℤ → Bool
is_none none = true
is_none (some _) = false

abbrev pub earlier : Option ℤ → ℤ → Bool
earlier none t = false
earlier (some prev) t = ltb_ℤ prev t

abbrev pub later : Option ℤ → ℤ → Bool
later none t = false
later (some prev) t = ltb_ℤ t prev

-- One case of the switch; none is the unsupported option.
unfoldable pub apply_sub_command : Option ℤ → ℤ → SubCommand → Flags → Option Flags
apply_sub_command prev t nx f =
    some (record f { nx_cmd = true; should_set = is_none prev || f.should_set })
apply_sub_command prev t xx f =
    some (record f { xx_cmd = true; should_set = not (is_none prev) || f.should_set })
apply_sub_command prev t gt f =
    some (record f { gt_cmd = true; should_set = earlier prev t || f.should_set })
apply_sub_command prev t lt f =
    some (record f { lt_cmd = true; should_set = later prev t || f.should_set })
apply_sub_command prev t unsupported f = none

unfoldable pub sub_commands_loop : Option ℤ → ℤ → List Str → Flags → Option Flags
unfolding apply_sub_command
sub_commands_loop prev t [] f = some f
sub_commands_loop prev t (c ∷ cs) f = elim (apply_sub_command prev t (sub_command c) f) [
  | none ↦ none
  | some f' ↦ sub_commands_loop prev t cs f'
]

pub data ExpiryResult : Type 0 where
  changed unchanged unsupported_option gt_lt_conflict nx_conflict : ExpiryResult

unfoldable pub conclude : ℕ → ℤ → Option Flags → Store → ExpiryResult × Store
conclude r t none s = (unsupported_option, s)
conclude r t (some f) s =
    if not f.nx_cmd && f.gt_cmd && f.lt_cmd
    then (gt_lt_conflict, s)
    else if f.nx_cmd && (f.xx_cmd || f.gt_cmd || f.lt_cmd)
    then (nx_conflict, s)
    else if f.should_set
    then (changed, set_unix_time_expiry r t s)
    else (unchanged, s)

abbrev pub is_nil : List Str → Bool
is_nil [] = true
is_nil (_ ∷ _) = false

-- The body of EvaluateAndSetExpiry once the key has been looked up.
unfoldable pub evaluate_found : List Str → ℤ → Option ℕ → Store → ExpiryResult × Store
unfolding conclude sub_commands_loop
evaluate_found sub_commands t none s = (unchanged, s)
evaluate_found sub_commands t (some r) s =
    if is_nil sub_commands
    then (changed, set_unix_time_expiry r t s)
    else conclude r t (sub_commands_loop (get_expiry r s) t sub_commands no_flags) s

unfoldable pub evaluate_and_set_expiry : ℤ → List Str → ℤ → Str → Store → ExpiryResult × Store
unfolding evaluate_found
evaluate_and_set_expiry now sub_commands t key s =
    let (found, s') = get now key s in evaluate_found sub_commands t found s'
