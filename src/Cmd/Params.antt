-- ===== src/Cmd/Params.antt =====
-- internal/types/params.go and parseParams of internal/cmd/cmd_set.go, with the loop of
-- cmd_getex.go: the options of a command. A missing key of the Go map is the empty string.
use dice_db_distributed_syst.Prelude.{
  Bool, true, false, ◌&&◌, ◌||◌, none, some, List, [], ◌∷◌, ◌++◌, if◌then◌else◌, Str, codes,
  str_beq, nat_eq, str_eq,
}
use dice_db_distributed_syst.Prelude.Int.{ℤ, pos, negsuc, ◌-ℤ◌, ◌*ℤ◌, leb_ℤ, wrap64, div_ℤ}
use dice_db_distributed_syst.Upper.{to_upper}
use dice_db_distributed_syst.Wire.{Run, panic, CmdError, invalid_value}
use dice_db_distributed_syst.Strconv.{parse_int}

pub data Param : Type 0 where
  ch incr gt lt ex px exat pxat xx nx keepttl persist : Param

abbrev pub param_name : Param → Str
param_name ch = codes "CH"
param_name incr = codes "INCR"
param_name gt = codes "GT"
param_name lt = codes "LT"
param_name ex = codes "EX"
param_name px = codes "PX"
param_name exat = codes "EXAT"
param_name pxat = codes "PXAT"
param_name xx = codes "XX"
param_name nx = codes "NX"
param_name keepttl = codes "KEEPTTL"
param_name persist = codes "PERSIST"

abbrev pub ParamMap : Type 0
ParamMap = Param → Str

abbrev pub no_params : ParamMap
no_params p = []

unfoldable pub set_param : Param → Str → ParamMap → ParamMap
unfolding str_beq
set_param p v m = λ q. if str_beq (param_name p) (param_name q) then v else m q

-- params[p] != ""
abbrev pub has : Param → ParamMap → Bool
has p m = elim (m p) [ [] ↦ false | _ ∷ _ ↦ true ]

-- The case of the switch that an argument takes.
pub data ArgKind : Type 0 where
  with_value : Param → ArgKind
  flag : Param → ArgKind
  other : ArgKind

abbrev first_match : Str → List (Param × ArgKind) → ArgKind
first_match u [] = other
first_match u ((p, kind) ∷ l) = if str_beq u (param_name p) then kind else first_match u l

abbrev timed : List (Param × ArgKind)
timed =
    (ex, with_value ex)
    ∷ (px, with_value px)
    ∷ (exat, with_value exat)
    ∷ (pxat, with_value pxat)
    ∷ []

unfoldable pub set_arg_kind : Str → ArgKind
unfolding str_beq to_upper
set_arg_kind a = first_match (to_upper a) (
    timed
    ++ (xx, flag xx)
      ∷ (nx, flag nx)
      ∷ (keepttl, flag keepttl)
      ∷ (lt, flag lt)
      ∷ (gt, flag gt)
      ∷ (ch, flag ch)
      ∷ (incr, flag incr)
      ∷ [])

unfoldable pub getex_arg_kind : Str → ArgKind
unfolding str_beq to_upper
getex_arg_kind a = first_match (to_upper a) (timed ++ (persist, flag persist) ∷ [])

abbrev pub true_text : Str
true_text = codes "true"

-- args[i+1] of an option in the last place is out of range.
unfoldable pub params_loop :
    (Str → ArgKind) → List Str → ParamMap → List Str → Run (ParamMap × List Str)
unfolding set_param
params_loop kind [] m others = Run.ok (m, others)
params_loop kind (a ∷ []) m others = elim (kind a) [
  | with_value p ↦ panic
  | flag p ↦ Run.ok (set_param p true_text m, others)
  | other ↦ Run.ok (m, others ++ a ∷ [])
]
params_loop kind (a ∷ v ∷ rest) m others = elim (kind a) [
  | with_value p ↦ params_loop kind rest (set_param p v m) others
  | flag p ↦ params_loop kind (v ∷ rest) (set_param p true_text m) others
  | other ↦ params_loop kind (v ∷ rest) m (others ++ a ∷ [])
]

unfoldable pub parse_params : List Str → Run (ParamMap × List Str)
unfolding params_loop set_arg_kind
parse_params args = params_loop set_arg_kind args no_params []

-- GETEX passes over the arguments that are no options.
unfoldable pub getex_params : List Str → Run (ParamMap × List Str)
unfolding params_loop getex_arg_kind
getex_params args = params_loop getex_arg_kind args no_params []

unfoldable pub has_expiry : ParamMap → Bool
has_expiry m = has ex m || has px m || has exat m || has pxat m

-- More than one of EX, PX, EXAT and PXAT.
unfoldable pub expiry_conflict : ParamMap → Bool
expiry_conflict m =
    has ex m && has px m
    || has ex m && has exat m
    || has ex m && has pxat m
    || has px m && has exat m
    || has px m && has pxat m
    || has exat m && has pxat m

abbrev pub max_ex_duration_sec : ℤ
max_ex_duration_sec = pos 31536000

abbrev pub max_ex_duration_ms : ℤ
max_ex_duration_ms = pos 31536000000

-- A duration in milliseconds, or the error.
pub data Duration : Type 0 where
  ms : ℤ → Duration
  wrong : CmdError → Duration

abbrev pub then_ms : Duration → (ℤ → Duration) → Duration
then_ms (ms d) f = f d
then_ms (wrong e) f = wrong e

-- The number of an option's text, tested to lie above 0 and below a limit, and scaled.
unfoldable pub bounded_ms : Str → Param → Str → (ℤ → ℤ) → ℤ → (ℤ → ℤ) → Duration
bounded_ms cmd p text offset limit scale = elim (parse_int text) [
  | none ↦ wrong (invalid_value cmd (param_name p))
  | some n ↦
      let d = offset n in
      if leb_ℤ d (pos 0) || leb_ℤ limit d
      then wrong (invalid_value cmd (param_name p))
      else ms (scale d)
]

-- time.Now().Unix()
abbrev pub unix_sec : ℤ → ℤ
unix_sec now = div_ℤ now 1000

abbrev pub seconds : ℤ → ℤ
seconds d = wrap64 (d *ℤ pos 1000)

-- The four tests of evalSET and evalGETEX, in their order; -1 stands for no expiry.
unfoldable pub ex_duration_ms : Str → ParamMap → ℤ → Duration
unfolding bounded_ms
ex_duration_ms cmd m now =
    let ex_step =
      if has ex m
      then bounded_ms cmd ex (m ex) (λ n. n) max_ex_duration_sec seconds
      else ms (negsuc 0) in
    let px_step = λ (d : ℤ).
      if has px m then bounded_ms cmd px (m px) (λ n. n) max_ex_duration_sec (λ n. n) else ms d in
    let exat_step = λ (d : ℤ).
      if has exat m
      then bounded_ms cmd exat (m exat) (λ n. wrap64 (n -ℤ unix_sec now)) max_ex_duration_sec
          seconds
      else ms d in
    let pxat_step = λ (d : ℤ).
      if has pxat m
      then bounded_ms cmd pxat (m pxat) (λ n. wrap64 (n -ℤ now)) max_ex_duration_ms (λ n. n)
      else ms d in
    then_ms (then_ms (then_ms ex_step px_step) exat_step) pxat_step
