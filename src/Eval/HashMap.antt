-- ===== src/Eval/HashMap.antt =====
-- internal/eval/hmap.go, and the helpers of store_eval.go on hashes. A HashMap is a map of Go: an
-- association list in the order in which a range meets it.
use dice_db_distributed_syst.Prelude.{
  ℕ, suc, ◌-◌, ◌^◌, Bool, ◌&&◌, ◌||◌, Option, none, some, List, [], ◌∷◌, if◌then◌else◌, Str, codes,
  nat_eq, str_eq,
}
use dice_db_distributed_syst.Prelude.Int.{ℤ, pos, negsuc, ◌+ℤ◌, ◌-ℤ◌, ltb_ℤ, wrap64}
use dice_db_distributed_syst.Strconv.{parse_int, format_int}
use dice_db_distributed_syst.Table
use dice_db_distributed_syst.Object.{ObjectType, Value}
use dice_db_distributed_syst.Store.State.{Store, new_obj}
use dice_db_distributed_syst.Store.Access.{get}
use dice_db_distributed_syst.Store.Put.{put}
use dice_db_distributed_syst.Eval.{
  nil, resp, text, EvalError, EvalResponse, wrong_argument_count, wrong_type_operation,
  make_eval_result, make_eval_error,
}
use dice_db_distributed_syst.Eval.Fetch.{
  Fetched, missing, mistyped, cast_panic, found, fetch, write_value,
}

abbrev pub HashMap : Type 0
HashMap = List (Str × Str)

abbrev pub as_hash_map : Value → Option HashMap
as_hash_map (Value.hash_map h) = some h
as_hash_map _ = none

-- Get, and Set with the old value.
unfoldable pub hash_get : Str → HashMap → Option Str
hash_get k h = Table.load k h

unfoldable pub hash_set : Str → Str → HashMap → Option Str × HashMap
unfolding hash_get
hash_set k v h = (hash_get k h, Table.upsert k v h)

-- hashMapBuilder: the map is written pair by pair, also where a last field has no value. The number
-- of new fields is none where that is so.
unfoldable pub hash_map_builder : List Str → HashMap → HashMap × Option ℕ
unfolding hash_set
hash_map_builder [] h = (h, some 0)
hash_map_builder (k ∷ []) h = (h, none)
hash_map_builder (k ∷ v ∷ kvs) h =
    let (old, h') = hash_set k v h in
    let (h'', count) = hash_map_builder kvs h' in
    (h'', elim count [ none ↦ none | some n ↦ some (elim old [ none ↦ suc n | some _ ↦ n ]) ])

-- getValueFromHashMap
unfoldable pub get_value_from_hash_map : ℤ → Str → Str → Store → EvalResponse × Store
unfolding get hash_get make_eval_result make_eval_error
get_value_from_hash_map now key field s =
    let (o, s') = get now key s in
    (
      elim o [
        | none ↦ make_eval_result (resp nil)
        | some r ↦ elim (as_hash_map (s'.objs r).value) [
          | none ↦ make_eval_error wrong_type_operation
          | some h ↦ elim (hash_get field h) [
            | none ↦ make_eval_result (resp nil)
            | some v ↦ make_eval_result (text v)
          ]
        ]
      ],
      s',
    )

-- incrementValue: the sum must not leave int64. The error has the text of the source's.
abbrev pub not_integer_text : Str
not_integer_text = codes "hash value is not an integer"

abbrev pub overflow_text : Str
overflow_text = codes "increment or decrement would overflow"

unfoldable pub overflows : ℤ → ℤ → Bool
overflows i increment =
    (ltb_ℤ (pos 0) i && ltb_ℤ (pos 0) increment && ltb_ℤ (pos (2 ^ 63 - 1) -ℤ increment) i)
    || (ltb_ℤ i (pos 0) && ltb_ℤ increment (pos 0) && ltb_ℤ i (negsuc (2 ^ 63 - 1) -ℤ increment))

pub data Incremented : Type 0 where
  incremented : ℤ → HashMap → Incremented
  refused : Str → Incremented

unfoldable pub increment_value : Str → ℤ → HashMap → Incremented
unfolding overflows
increment_value field increment h = elim (Table.load field h) [
  | none ↦ incremented increment (Table.upsert field (format_int increment) h)
  | some v ↦ elim (parse_int v) [
    | none ↦ refused not_integer_text
    | some i ↦
        let total = wrap64 (i +ℤ increment) in
        if overflows i increment
        then refused overflow_text
        else incremented total (Table.upsert field (format_int total) h)
  ]
]

-- insertInHashMap. The map of an object that is there is written into before the error of a field
-- without a value is found; without the error a new object takes the map over.
pub data Insertion : Type 0 where
  added : ℕ → Insertion
  failed : EvalError → Insertion
  insertion_panic : Insertion

unfoldable pub insert_built : ℤ → Str → HashMap × Option ℕ → Store → Insertion × Store
unfolding new_obj put
insert_built now key (h, none) s = (failed (wrong_argument_count (codes "HSET")), s)
insert_built now key (h, some n) s =
    let (r, s₁) = new_obj now (Value.hash_map h) (negsuc 0) ObjectType.ss_map s in
    (added n, put now key r s₁)

unfoldable pub insert_into : ℤ → Str → List Str → Fetched HashMap → Store → Insertion × Store
unfolding insert_built hash_map_builder write_value
insert_into now key kvs missing s = insert_built now key (hash_map_builder kvs []) s
insert_into now key kvs mistyped s = (failed wrong_type_operation, s)
insert_into now key kvs cast_panic s = (insertion_panic, s)
insert_into now key kvs (found r h) s =
    let built = hash_map_builder kvs h in
    insert_built now key built (write_value r (Value.hash_map built.0) s)

unfoldable pub insert_in_hash_map : ℤ → Str → List Str → Store → Insertion × Store
unfolding fetch insert_into
insert_in_hash_map now key kvs s =
    let (f, s') = fetch ObjectType.ss_map as_hash_map now key s in insert_into now key kvs f s'
