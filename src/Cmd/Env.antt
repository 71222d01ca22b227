-- ===== src/Cmd/Env.antt =====
-- What the commands of internal/cmd use from outside: the library functions that the model does not
-- look into, and the object that cmd_get.go and cmd_set.go make and print.
use dice_db_distributed_syst.Prelude.{ℕ, Bool, Option, none, some, [], Str, codes, nat_eq, str_eq}
use dice_db_distributed_syst.Prelude.Int.{ℤ}
use dice_db_distributed_syst.Object.{Obj, ObjectType, Value}
use dice_db_distributed_syst.Store.State.{Store, new_obj}
use dice_db_distributed_syst.Strconv.{parse_int, format_int}
use dice_db_distributed_syst.Wire.{Run, panic, Response, Result, Reply, ok_result, err_result}

-- xxhash.Sum64String, farm.Fingerprint64, strconv.ParseFloat to the bits of a float64, the verb %f,
-- EXPIREATMaxAbsTimestamp, and path.Match, none for a malformed pattern.
pub record Env : Type 0 where
  pub hash : Str → ℕ
  pub fingerprint : Str → ℕ
  pub parse_float : Str → Option ℕ
  pub format_float : ℕ → Str
  pub expireat_max : ℤ
  pub path_match : Str → Str → Option Bool

-- CreateObjectFromValue: an integer, else a float, else the string itself.
unfoldable pub create_object_from_value : Env → ℤ → Str → ℤ → Store → ℕ × Store
create_object_from_value env now value expiry_ms s = elim (parse_int value) [
  | some n ↦ new_obj now (Value.int n) expiry_ms ObjectType.int s
  | none ↦ elim (env.parse_float value) [
    | some f ↦ new_obj now (Value.float f) expiry_ms ObjectType.float s
    | none ↦ new_obj now (Value.str value) expiry_ms ObjectType.string s
  ]
]

-- The text of an object, none for a type that has none. A value whose Go type is not the one that the
-- tag promises panics in the type assertion: so does a ByteArray of internal/eval.
unfoldable pub value_text : Env → ObjectType → Value → Run (Option Str)
value_text env ObjectType.int v = elim v [ Value.int n ↦ Run.ok (some (format_int n)) | _ ↦ panic ]
value_text env ObjectType.string v = elim v [ Value.str t ↦ Run.ok (some t) | _ ↦ panic ]
value_text env ObjectType.byte_array v = elim v [ Value.bytes t ↦ Run.ok (some t) | _ ↦ panic ]
value_text env ObjectType.hll v = elim v [ Value.bytes t ↦ Run.ok (some t) | _ ↦ panic ]
value_text env ObjectType.float v = elim v [
  | Value.float f ↦ Run.ok (some (env.format_float f))
  | _ ↦ panic
]
value_text env _ v = Run.ok none

-- getWireValueFromObj; none is ErrUnknownObjectType. A nil object has the empty text.
unfoldable pub get_wire_value_from_obj : Env → Option Obj → Run (Option Str)
unfolding value_text
get_wire_value_from_obj env none = Run.ok (some [])
get_wire_value_from_obj env (some o) = value_text env o.type o.value

abbrev pub unknown_object_text : Str
unknown_object_text = codes "unknown object type"

-- newGETRes, and with other response types newGETEXRes, newGETDELRes and newGETSETRes: an object
-- without a text gives a result with Status_ERR.
unfoldable pub new_value_res : Env → Option Obj → Run Result
unfolding get_wire_value_from_obj ok_result err_result
new_value_res env o = elim (get_wire_value_from_obj env o) [
  | panic ↦ panic
  | Run.ok none ↦ Run.ok (err_result unknown_object_text)
  | Run.ok (some t) ↦ Run.ok (ok_result (Response.value t))
]

-- The object behind a pointer.
abbrev pub deref : Store → Option ℕ → Option Obj
deref s none = none
deref s (some r) = some (s.objs r)

abbrev pub answer : Result → Reply
answer r = record { result = r; error = none }

-- A command that ends with a result, or with a panic.
abbrev pub answered : Run Result → Store → Run (Reply × Store)
answered panic s = panic
answered (Run.ok r) s = Run.ok (answer r, s)
