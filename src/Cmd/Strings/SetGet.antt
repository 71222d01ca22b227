-- ===== src/Cmd/Strings/SetGet.antt =====
-- GET after SET (internal/cmd/cmd_get.go, cmd_set.go).
use dice_db_distributed_syst.Prelude.{none, some, Str, nat_eq, str_eq}
use dice_db_distributed_syst.Strconv.{parse_int, format_int}
use dice_db_distributed_syst.Store.State.{Store}
use dice_db_distributed_syst.Cmd.Env.{Env}

-- What a text that is stored reads back as: a number in decimal, a float as it is printed, or the
-- text itself.
abbrev pub read_back : Env → Str → Str
read_back env t = elim (parse_int t) [
  | some n ↦ format_int n
  | none ↦ elim (env.parse_float t) [ some f ↦ env.format_float f | none ↦ t ]
]
