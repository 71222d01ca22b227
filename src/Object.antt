-- ===== src/Object.antt =====
-- internal/object/object.go and typeencoding.go: stored values, their type tags, and the check of a
-- tag. A Value is `interface{}` in the source: the constructors are the Go types that the modelled
-- commands store; `handle` stands for the values of the other commands, which are not looked into.
use dice_db_distributed_syst.Prelude.{
  ℕ, Bool, List, ◌==◌, if◌then◌else◌, Str, codes, nat_eq, str_eq,
}
use dice_db_distributed_syst.Prelude.Int.{ℤ}

pub data ObjectType : Type 0 where
  string json byte_array int set ss_map sorted_set count_min_sketch bf dequeue hll float :
      ObjectType

-- The enumeration's value: 1 and 2 are skipped.
unfoldable pub type_code : ObjectType → ℕ
type_code ObjectType.string = 0
type_code ObjectType.json = 3
type_code ObjectType.byte_array = 4
type_code ObjectType.int = 5
type_code ObjectType.set = 6
type_code ObjectType.ss_map = 7
type_code ObjectType.sorted_set = 8
type_code ObjectType.count_min_sketch = 9
type_code ObjectType.bf = 10
type_code ObjectType.dequeue = 11
type_code ObjectType.hll = 12
type_code ObjectType.float = 13

-- ObjectType.String
unfoldable pub type_name : ObjectType → Str
type_name ObjectType.string = codes "string"
type_name ObjectType.json = codes "json"
type_name ObjectType.byte_array = codes "bytes"
type_name ObjectType.int = codes "int"
type_name ObjectType.set = codes "set"
type_name ObjectType.ss_map = codes "ssmap"
type_name ObjectType.sorted_set = codes "sortedset"
type_name ObjectType.count_min_sketch = codes "countminsketch"
type_name ObjectType.bf = codes "bf"
type_name ObjectType.dequeue = codes "dequeue"
type_name ObjectType.hll = codes "hll"
type_name ObjectType.float = codes "float"

-- A float64 is its bit pattern. An SSMap, of internal/cmd, and a HashMap, of internal/eval, are
-- association lists, a set is the list of its members, and a ByteArray its bytes.
pub data Value : Type 0 where
  int : ℤ → Value
  str : Str → Value
  float : ℕ → Value
  bytes : Str → Value
  ss_map : List (Str × Str) → Value
  hash_map : List (Str × Str) → Value
  set : List Str → Value
  byte_array : Str → Value
  handle : ℕ → Value

pub record Obj : Type 0 where
  pub type : ObjectType
  pub last_accessed_at : ℤ
  pub value : Value

-- AssertTypeWithError: whether the tags differ.
unfoldable pub wrong_type : ObjectType → ObjectType → Bool
unfolding type_code
wrong_type te t = if type_code te == type_code t then Bool.false else Bool.true
