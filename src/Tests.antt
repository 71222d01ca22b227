-- ===== src/Tests.antt =====
-- A store with two keys, and runs of the model of DiceDB on it. The children apply the theorems to it.
pub mod Stores
pub mod Commands
pub mod Servers
pub mod Logs
pub mod Sketches
pub mod Deques
pub mod Evals
use dice_db_distributed_syst.Prelude.{
  ℕ, refl, true, none, some, [], ◌∷◌, arith, ◌==◌, if◌then◌else◌, length, Str, codes, str_beq,
  str_beq_iff, nat_eq, str_eq,
}
use dice_db_distributed_syst.Prelude.Int.{pos}
use dice_db_distributed_syst.Table
use dice_db_distributed_syst.Table.{RegMap}
use dice_db_distributed_syst.Object.{Obj, ObjectType, Value}
use dice_db_distributed_syst.Store.State.{Store, no_stats}
use dice_db_distributed_syst.Store.Invariant.{IsValid}
use dice_db_distributed_syst.Cmd.Env.{Env}

abbrev pub key_n : Str
key_n = codes "n"

abbrev pub key_t : Str
key_t = codes "t"

abbrev objs : ℕ → Obj
objs r =
    if r == 0
    then record { type = ObjectType.int; last_accessed_at = pos 20; value = Value.int (pos 41) }
    else record {
      type = ObjectType.string;
      last_accessed_at = pos 10;
      value = Value.str (codes "hi");
    }

-- "n" holds 41 and expires at 5000; "t" holds "hi" and does not expire. There is room for four keys.
abbrev pub demo : Store
demo = record {
  objs = objs;
  next = 2;
  store = record { m = (key_n, 0) ∷ (key_t, 1) ∷ []; count = pos 2 };
  expires = record { m = (0, pos 5000) ∷ []; count = pos 1 };
  num_keys = pos 2;
  watch = some [];
  strategy = record { stats = no_stats; max_keys = 4 };
  shard_id = 0;
}

pub demo-IsValid : IsValid demo
unfolding Table.get Table.load
demo-IsValid = record {
  keys = (unfold str_beq in refl, (refl, tt));
  times = (refl, tt);
  counted = refl;
  allocated = λ k r h. ground arith;
  unshared = λ k j r h g.
      ground
        (arith, str_beq_iff key_n k, str_beq_iff key_t k, str_beq_iff key_n j, str_beq_iff key_t j);
  dated = λ r t h. ground arith;
}

abbrev pub env : Env
env = record {
  hash = λ s. length s;
  fingerprint = λ s. length s;
  parse_float = λ _. none;
  format_float = λ _. [];
  expireat_max = pos 0;
  path_match = λ _ _. some true;
}
