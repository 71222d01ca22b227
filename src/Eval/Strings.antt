-- ===== src/Eval/Strings.antt =====
-- GETRANGE, APPEND, PTTL, PERSIST, TOUCH, DBSIZE and KEYS of internal/eval/store_eval.go, and the helpers
-- of type_string.go.
use dice_db_distributed_syst.Prelude.{
  ℕ, ◌+◌, ◌-◌, Bool, false, ◌||◌, Option, none, some, List, [], ◌∷◌, ◌++◌, ◌==◌, if◌then◌else◌,
  length, drop, take, Str, codes, nat_eq, str_eq,
}
use dice_db_distributed_syst.Prelude.Int.{
  ℤ, pos, negsuc, pos_part, ◌+ℤ◌, ◌-ℤ◌, ltb_ℤ, leb_ℤ, wrap64,
}
use dice_db_distributed_syst.Strconv.{parse_int, format_int}
use dice_db_distributed_syst.Object.{ObjectType, Value, Obj}
use dice_db_distributed_syst.Store.State.{Store, new_obj, get_db_size}
use dice_db_distributed_syst.Store.Expiry.{get_expiry, del_expiry}
use dice_db_distributed_syst.Store.Access.{get, keys}
use dice_db_distributed_syst.Store.Put.{put}
use dice_db_distributed_syst.Store.Sweep.{delete_expired_keys}
use dice_db_distributed_syst.Wire.{Run, panic}
use dice_db_distributed_syst.Eval.{
  resp, integer_zero, integer_one, integer_negative_one, integer_negative_two, number, text, texts,
  wrong_type_operation, integer_out_of_range, general, make_eval_result, make_eval_error,
}
use dice_db_distributed_syst.Eval.Hash.{Evaluated, argument_error}

-- The text of an object, for convertValueToString and for GETRANGE, which differ on a string's tag over
-- another value. A *sortedset.Set, which APPEND looks for, has another tag.
pub data Text : Type 0 where
  text_of : Str → Text
  not_string cast_panic other_type : Text

unfoldable pub text_for : Obj → Text
unfolding format_int
text_for o = elim o.type [
  | ObjectType.string ↦ elim o.value [ Value.str t ↦ text_of t | _ ↦ not_string ]
  | ObjectType.int ↦ elim o.value [ Value.int n ↦ text_of (format_int n) | _ ↦ cast_panic ]
  | ObjectType.byte_array ↦ elim o.value [ Value.byte_array b ↦ text_of b | _ ↦ other_type ]
  | _ ↦ other_type
]

-- The part of a text from a start to an end, both from its end where negative.
unfoldable pub range_of : ℤ → ℤ → Str → Str
range_of start end t =
    let n = pos (length t) in
    let start' = if ltb_ℤ start (pos 0) then wrap64 (n +ℤ start) else start in
    let end' = if ltb_ℤ end (pos 0) then wrap64 (n +ℤ end) else end in
    let last = if leb_ℤ n end' then n -ℤ pos 1 else end' in
    if length t == 0
    then []
    else if leb_ℤ n start' || ltb_ℤ end' (pos 0) || ltb_ℤ end' start'
    then []
    else take (pos_part last + 1 - pos_part start') (drop (pos_part start') t)

unfoldable pub getrange_found : ℤ → ℤ → Text → Store → Evaluated
unfolding range_of make_eval_result make_eval_error
getrange_found start end (text_of t) s = Run.ok (make_eval_result (text (range_of start end t)), s)
getrange_found start end not_string s =
    Run.ok (make_eval_error (general (codes "expected string but got another type")), s)
getrange_found start end cast_panic s = panic
getrange_found start end other_type s = Run.ok (make_eval_error wrong_type_operation, s)

unfoldable pub eval_getrange : ℤ → List Str → Store → Evaluated
unfolding get parse_int text_for getrange_found make_eval_result make_eval_error
eval_getrange now (key ∷ start ∷ end ∷ []) s =
    let (o, s') = get now key s in
    elim o [
      | none ↦ Run.ok (make_eval_result (text []), s')
      | some r ↦ elim (parse_int start) [
        | none ↦ Run.ok (make_eval_error integer_out_of_range, s')
        | some i ↦ elim (parse_int end) [
          | none ↦ Run.ok (make_eval_error integer_out_of_range, s')
          | some j ↦ getrange_found i j (text_for (s'.objs r)) s'
        ]
      ]
    ]
eval_getrange now _ s = argument_error "GETRANGE" s

-- getRawStringOrInt: a number that does not begin with a zero, unless it is one.
abbrev leads_with_zero : Str → Bool
leads_with_zero (c ∷ d ∷ t) = c == b'0'
leads_with_zero _ = false

unfoldable pub get_raw_string_or_int : Str → Value × ObjectType
unfolding parse_int
get_raw_string_or_int t =
    if leads_with_zero t then (Value.str t, ObjectType.string) else elim (parse_int t) [
      | none ↦ (Value.str t, ObjectType.string)
      | some n ↦ (Value.int n, ObjectType.int)
    ]

-- The time that is left to an object, -1 where it has none.
unfoldable pub duration_left : ℤ → ℕ → Store → ℤ
unfolding get_expiry
duration_left now r s = elim (get_expiry r s) [
  | none ↦ negsuc 0
  | some exp ↦ let d = wrap64 (exp -ℤ now) in if ltb_ℤ d (pos 0) then pos 0 else d
]

unfoldable pub append_found : ℤ → Str → Str → ℕ → Text → Store → Evaluated
unfolding duration_left new_obj put make_eval_result make_eval_error
append_found now key value r (text_of t) s =
    let (r', s') =
      new_obj now (Value.str (t ++ value)) (duration_left now r s) ObjectType.string s in
    Run.ok (make_eval_result (number (pos (length (t ++ value)))), put now key r' s')
append_found now key value r not_string s = panic
append_found now key value r cast_panic s = panic
append_found now key value r other_type s = Run.ok (make_eval_error wrong_type_operation, s)

unfoldable pub eval_append : ℤ → List Str → Store → Evaluated
unfolding get text_for append_found get_raw_string_or_int new_obj put make_eval_result
    make_eval_error
eval_append now (key ∷ value ∷ []) s =
    let (o, s') = get now key s in
    elim o [
      | some r ↦ append_found now key value r (text_for (s'.objs r)) s'
      | none ↦
          let (v, type) = get_raw_string_or_int value in
          let (r, s₁) = new_obj now v (negsuc 0) type s' in
          Run.ok (make_eval_result (number (pos (length value))), put now key r s₁)
    ]
eval_append now _ s = argument_error "APPEND" s

unfoldable pub eval_pttl : ℤ → List Str → Store → Evaluated
unfolding get get_expiry make_eval_result make_eval_error
eval_pttl now (key ∷ []) s =
    let (o, s') = get now key s in
    elim o [
      | none ↦ Run.ok (make_eval_result (resp integer_negative_two), s')
      | some r ↦ elim (get_expiry r s') [
        | none ↦ Run.ok (make_eval_result (resp integer_negative_one), s')
        | some exp ↦ Run.ok (make_eval_result (number (wrap64 (exp -ℤ now))), s')
      ]
    ]
eval_pttl now _ s = argument_error "PTTL" s

unfoldable pub eval_persist : ℤ → List Str → Store → Evaluated
unfolding get get_expiry del_expiry make_eval_result make_eval_error
eval_persist now (key ∷ []) s =
    let (o, s') = get now key s in
    elim o [
      | none ↦ Run.ok (make_eval_result (resp integer_zero), s')
      | some r ↦ elim (get_expiry r s') [
        | none ↦ Run.ok (make_eval_result (resp integer_zero), s')
        | some _ ↦ Run.ok (make_eval_result (resp integer_one), del_expiry r s')
      ]
    ]
eval_persist now _ s = argument_error "PERSIST" s

unfoldable pub eval_touch : ℤ → List Str → Store → Evaluated
unfolding get make_eval_result make_eval_error
eval_touch now (key ∷ []) s =
    let (o, s') = get now key s in
    Run.ok (make_eval_result (number (elim o [ none ↦ pos 0 | some _ ↦ pos 1 ])), s')
eval_touch now _ s = argument_error "TOUCH" s

unfoldable pub eval_dbsize : ℤ → List Str → Store → Evaluated
unfolding delete_expired_keys get_db_size make_eval_result make_eval_error
eval_dbsize now [] s =
    let s' = delete_expired_keys now s in Run.ok (make_eval_result (number (get_db_size s')), s')
eval_dbsize now _ s = argument_error "DBSIZE" s

unfoldable pub eval_keys : (Str → Str → Option Bool) → List Str → Store → Evaluated
unfolding keys make_eval_result make_eval_error
eval_keys path_match (pattern ∷ []) s =
    let (ks, failed) = keys path_match pattern s in
    if failed
    then Run.ok (make_eval_error (general (codes "bad pattern")), s)
    else Run.ok (make_eval_result (texts ks), s)
eval_keys path_match _ s = argument_error "KEYS" s
