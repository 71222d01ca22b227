-- ===== src/Eval/Hash.antt =====
-- The commands on hashes of internal/eval/store_eval.go, but for the ones on floats and random fields.
pub mod Scan
pub mod Laws
use dice_db_distributed_syst.Prelude.{
  ℕ, suc, String, Bool, true, false, Option, none, some, List, [], ◌∷◌, arith, ltb, if◌then◌else◌,
  length, Str, codes, nat_eq, str_eq,
}
use dice_db_distributed_syst.Prelude.Int.{ℤ, pos, negsuc}
use dice_db_distributed_syst.Strconv.{parse_int}
use dice_db_distributed_syst.Table
use dice_db_distributed_syst.Object.{ObjectType, Value, Obj}
use dice_db_distributed_syst.Store.State.{Store, new_obj}
use dice_db_distributed_syst.Store.Put.{put}
use dice_db_distributed_syst.Wire.{Run, panic}
use dice_db_distributed_syst.Eval.{
  RespType, resp, nil, okay, integer_zero, integer_one, empty_array, number, text, texts,
  maybe_texts, EvalResult, EvalError, EvalResponse, wrong_argument_count, wrong_type_operation,
  integer_out_of_range, general, make_eval_result, make_eval_error, wrong_type_text,
}
use dice_db_distributed_syst.Eval.Fetch.{
  Fetched, missing, mistyped, cast_panic, found, fetch, on_fetched, write_value,
}
use dice_db_distributed_syst.Eval.HashMap.{
  HashMap, as_hash_map, hash_get, Incremented, incremented, refused, increment_value, added, failed,
  insertion_panic, get_value_from_hash_map, insert_in_hash_map,
}

abbrev pub Evaluated : Type 0
Evaluated = Run (EvalResponse × Store)

abbrev pub argument_error : String → Store → Evaluated
argument_error name s = Run.ok (make_eval_error (wrong_argument_count (codes name)), s)

-- A command that only reads the hash of its key.
unfoldable pub read_hash :
    EvalResult → EvalError → (HashMap → EvalResult) → ℤ → Str → Store → Evaluated
unfolding fetch on_fetched make_eval_result
read_hash absent wrong answer now key s =
    let (f, s') = fetch ObjectType.ss_map as_hash_map now key s in
    on_fetched (make_eval_result absent) wrong (λ r h s₁. Run.ok (make_eval_result (answer h), s₁))
      f s'

abbrev pub keys_of : HashMap → List Str
keys_of [] = []
keys_of ((k, v) ∷ h) = k ∷ keys_of h

abbrev pub values_of : HashMap → List Str
values_of [] = []
values_of ((k, v) ∷ h) = v ∷ values_of h

abbrev pub pairs_of : HashMap → List Str
pairs_of [] = []
pairs_of ((k, v) ∷ h) = k ∷ v ∷ pairs_of h

unfoldable pub eval_hexists : ℤ → List Str → Store → Evaluated
unfolding read_hash hash_get make_eval_error
eval_hexists now (key ∷ field ∷ []) s =
    read_hash (resp integer_zero) (general wrong_type_text)
      (λ h. elim (hash_get field h) [ none ↦ resp integer_zero | some _ ↦ resp integer_one ]) now
      key s
eval_hexists now _ s = argument_error "HEXISTS" s

unfoldable pub eval_hkeys : ℤ → List Str → Store → Evaluated
unfolding read_hash make_eval_error
eval_hkeys now (key ∷ []) s =
    read_hash (resp empty_array) (general wrong_type_text) (λ h. texts (keys_of h)) now key s
eval_hkeys now _ s = argument_error "HKEYS" s

unfoldable pub eval_hvals : ℤ → List Str → Store → Evaluated
unfolding read_hash make_eval_error
eval_hvals now (key ∷ []) s =
    read_hash (resp empty_array) (general wrong_type_text) (λ h. texts (values_of h)) now key s
eval_hvals now _ s = argument_error "HVALS" s

unfoldable pub eval_hgetall : ℤ → List Str → Store → Evaluated
unfolding read_hash make_eval_error
eval_hgetall now (key ∷ []) s =
    read_hash (texts []) wrong_type_operation (λ h. texts (pairs_of h)) now key s
eval_hgetall now _ s = argument_error "HGETALL" s

unfoldable pub eval_hlen : ℤ → List Str → Store → Evaluated
unfolding read_hash make_eval_error
eval_hlen now (key ∷ []) s =
    read_hash (resp integer_zero) wrong_type_operation (λ h. number (pos (length h))) now key s
eval_hlen now _ s = argument_error "HLEN" s

unfoldable pub eval_hstrlen : ℤ → List Str → Store → Evaluated
unfolding read_hash hash_get make_eval_error
eval_hstrlen now (key ∷ field ∷ []) s =
    read_hash (resp integer_zero) wrong_type_operation
      (λ h. elim (hash_get field h) [ none ↦ resp integer_zero | some v ↦ number (pos (length v)) ])
      now key s
eval_hstrlen now _ s = argument_error "HSTRLEN" s

abbrev pub get_fields : List Str → HashMap → List (Option Str)
get_fields [] h = []
get_fields (k ∷ ks) h = hash_get k h ∷ get_fields ks h

abbrev pub no_fields : List Str → List (Option Str)
no_fields [] = []
no_fields (k ∷ ks) = none ∷ no_fields ks

unfoldable pub eval_hmget : ℤ → List Str → Store → Evaluated
unfolding read_hash make_eval_error
eval_hmget now (key ∷ field ∷ fields) s =
    read_hash (maybe_texts (no_fields (field ∷ fields))) wrong_type_operation
      (λ h. maybe_texts (get_fields (field ∷ fields) h)) now key s
eval_hmget now _ s = argument_error "HMGET" s

-- The response is written out again, as it is.
unfoldable pub eval_hget : ℤ → List Str → Store → Evaluated
unfolding get_value_from_hash_map make_eval_error
eval_hget now (key ∷ field ∷ []) s = Run.ok (get_value_from_hash_map now key field s)
eval_hget now _ s = argument_error "HGET" s

-- HSET and HMSET: what each answers to a number of new fields.
unfoldable pub insert_and : (ℕ → EvalResult) → ℤ → Str → List Str → Store → Evaluated
unfolding insert_in_hash_map make_eval_result make_eval_error
insert_and answer now key kvs s =
    let (i, s') = insert_in_hash_map now key kvs s in
    elim i [
      | added n ↦ Run.ok (make_eval_result (answer n), s')
      | failed e ↦ Run.ok (make_eval_error e, s')
      | insertion_panic ↦ panic
    ]

unfoldable pub eval_hset : ℤ → List Str → Store → Evaluated
unfolding insert_and
eval_hset now (key ∷ k ∷ v ∷ kvs) s = insert_and (λ n. number (pos n)) now key (k ∷ v ∷ kvs) s
eval_hset now _ s = argument_error "HSET" s

unfoldable pub eval_hmset : ℤ → List Str → Store → Evaluated
unfolding insert_and
eval_hmset now (key ∷ k ∷ v ∷ kvs) s = insert_and (λ n. resp okay) now key (k ∷ v ∷ kvs) s
eval_hmset now _ s = argument_error "HMSET" s

abbrev pub is_nil : EvalResult → Bool
is_nil (resp nil) = true
is_nil _ = false

-- What HSET answers is not looked at.
unfoldable pub eval_hsetnx : ℤ → List Str → Store → Evaluated
unfolding get_value_from_hash_map eval_hset make_eval_result make_eval_error
eval_hsetnx now (key ∷ field ∷ value ∷ []) s =
    let (current, s') = get_value_from_hash_map now key field s in
    elim current.error [
      | some e ↦ Run.ok (make_eval_error e, s')
      | none ↦
          if is_nil current.result
          then elim (eval_hset now (key ∷ field ∷ value ∷ []) s') [
            | panic ↦ panic
            | Run.ok (_, s₂) ↦ Run.ok (make_eval_result (number (pos 1)), s₂)
          ]
          else Run.ok (make_eval_result (number (pos 0)), s')
    ]
eval_hsetnx now _ s = argument_error "HSETNX" s

-- The loop of HDEL: how many fields were there, and the map without them.
unfoldable pub hdel_loop : List Str → HashMap → ℕ × HashMap
hdel_loop [] h = (0, h)
hdel_loop (k ∷ ks) h = elim (Table.load k h) [
  | none ↦ hdel_loop ks h
  | some _ ↦ let (n, h') = hdel_loop ks (Table.remove k h) in (suc n, h')
]

-- The object is put again under its own key where a field was deleted.
unfoldable pub hdel_found : ℤ → Str → List Str → ℕ → HashMap → Store → Evaluated
unfolding hdel_loop put write_value make_eval_result
hdel_found now key fields r h s =
    let (n, h') = hdel_loop fields h in
    let written = write_value r (Value.hash_map h') s in
    let s' = if ltb 0 n then put now key r written else written in
    Run.ok (make_eval_result (number (pos n)), s')

unfoldable pub eval_hdel : ℤ → List Str → Store → Evaluated
unfolding fetch on_fetched hdel_found make_eval_result make_eval_error
eval_hdel now (key ∷ field ∷ fields) s =
    let (f, s') = fetch ObjectType.ss_map as_hash_map now key s in
    on_fetched (make_eval_result (number (pos 0))) wrong_type_operation
      (λ r h s₁. hdel_found now key (field ∷ fields) r h s₁) f s'
eval_hdel now _ s = argument_error "HDEL" s

-- A new object takes the map over.
unfoldable pub keep_incremented : ℤ → Str → ℤ → HashMap → Store → Evaluated
unfolding new_obj put make_eval_result
keep_incremented now key n h s =
    let (r, s') = new_obj now (Value.hash_map h) (negsuc 0) ObjectType.ss_map s in
    Run.ok (make_eval_result (number n), put now key r s')

unfoldable pub hincrby_into : ℤ → Str → Str → ℤ → Fetched HashMap → Store → Evaluated
unfolding keep_incremented increment_value write_value make_eval_error
hincrby_into now key field increment missing s = elim (increment_value field increment []) [
  | refused t ↦ Run.ok (make_eval_error (general t), s)
  | incremented n h ↦ keep_incremented now key n h s
]
hincrby_into now key field increment mistyped s = Run.ok (make_eval_error wrong_type_operation, s)
hincrby_into now key field increment cast_panic s = panic
hincrby_into now key field increment (found r h) s = elim (increment_value field increment h) [
  | refused t ↦ Run.ok (make_eval_error (general t), s)
  | incremented n h' ↦ keep_incremented now key n h' (write_value r (Value.hash_map h') s)
]

unfoldable pub eval_hincrby : ℤ → List Str → Store → Evaluated
unfolding fetch hincrby_into make_eval_error
eval_hincrby now (key ∷ field ∷ increment ∷ _) s = elim (parse_int increment) [
  | none ↦ Run.ok (make_eval_error integer_out_of_range, s)
  | some n ↦
      let (f, s') = fetch ObjectType.ss_map as_hash_map now key s in
      hincrby_into now key field n f s'
]
eval_hincrby now _ s = argument_error "HINCRBY" s
