-- ===== src/Store/State.antt =====
-- The state of internal/store/store.go, with eviction.go's counters and store_options.go.
-- Objects are pointers in the source, and the expiry table is keyed by the pointer: `objs` is the
-- heap, an object is a number below `next`, and the tables hold such numbers. `now` is
-- time.Now().UnixMilli(), one reading for a call.
use dice_db_distributed_syst.Prelude.{
  ℕ, suc, Bool, false, Option, none, some, List, [], ◌∷◌, ◌++◌, ◌==◌, if◌then◌else◌, Str, codes,
  nat_eq, str_eq,
}
use dice_db_distributed_syst.Prelude.Int.{ℤ, pos, ◌+ℤ◌, leb_ℤ, wrap64}
use dice_db_distributed_syst.Object.{Obj, ObjectType, Value}
use dice_db_distributed_syst.Table
use dice_db_distributed_syst.Table.{RegMap}

pub record CmdWatchEvent : Type 0 where
  pub cmd : Str
  pub affected_key : Str

pub record EvictionStats : Type 0 where
  pub total_evictions : ℕ
  pub total_keys_evicted : ℕ
  pub last_eviction_count : ℤ
  pub last_eviction_time_ms : ℤ

-- PrimitiveEvictionStrategy, the only strategy of the source.
pub record Strategy : Type 0 where
  pub stats : EvictionStats
  pub max_keys : ℕ

-- `watch` is cmdWatchChan: nil, or what has been sent on it.
pub record Store : Type 0 where
  pub objs : ℕ → Obj
  pub next : ℕ
  pub store : RegMap Str ℕ
  pub expires : RegMap ℕ ℤ
  pub num_keys : ℤ
  pub watch : Option (List CmdWatchEvent)
  pub strategy : Strategy
  pub shard_id : ℕ

abbrev pub no_stats : EvictionStats
no_stats = record {
  total_evictions = 0;
  total_keys_evicted = 0;
  last_eviction_count = pos 0;
  last_eviction_time_ms = pos 0;
}

unfoldable pub new_primitive_eviction_strategy : ℕ → Strategy
new_primitive_eviction_strategy max_keys = record { stats = no_stats; max_keys = max_keys }

-- NewDefaultEviction leaves maxKeys at its zero value.
unfoldable pub new_default_eviction : Strategy
new_default_eviction = record { stats = no_stats; max_keys = 0 }

abbrev pub no_obj : ℕ → Obj
no_obj r = record { type = ObjectType.string; last_accessed_at = pos 0; value = Value.str [] }

unfoldable pub new_store : Option (List CmdWatchEvent) → Option Strategy → ℕ → Store
unfolding new_default_eviction
new_store watch strategy shard_id = record {
  objs = no_obj;
  next = 0;
  store = Table.empty;
  expires = Table.empty;
  num_keys = pos 0;
  watch = watch;
  shard_id = shard_id;
  strategy = elim strategy [ none ↦ new_default_eviction | some e ↦ e ];
}

-- Reset and ResetStore
unfoldable pub reset : Store → Store
reset s = record s { num_keys = pos 0; store = Table.empty; expires = Table.empty }

-- A write through a pointer.
unfoldable pub write_obj : ℕ → Obj → Store → Store
write_obj r o s = record s { objs = λ p. if p == r then o else s.objs p }

-- obj.LastAccessedAt = now
unfoldable pub touch_obj : ℤ → ℕ → Store → Store
unfolding write_obj
touch_obj now r s = write_obj r (record (s.objs r) { last_accessed_at = now }) s

unfoldable pub set_expiry : ℤ → ℕ → ℤ → Store → Store
set_expiry now r duration_ms s = record s {
  expires = Table.put r (wrap64 (now +ℤ duration_ms)) s.expires;
}

unfoldable pub set_unix_time_expiry : ℕ → ℤ → Store → Store
set_unix_time_expiry r unix_ms s = record s { expires = Table.put r unix_ms s.expires }

-- NewObj: a fresh pointer, with an expiry where the duration is not negative.
unfoldable pub new_obj : ℤ → Value → ℤ → ObjectType → Store → ℕ × Store
unfolding write_obj set_expiry
new_obj now value duration_ms type s =
    let r = s.next in
    let o : Obj = record { type = type; last_accessed_at = now; value = value } in
    let s' = write_obj r o (record s { next = suc r }) in
    (r, if leb_ℤ (pos 0) duration_ms then set_expiry now r duration_ms s' else s')

unfoldable pub get_key_count : Store → ℤ
get_key_count s = s.num_keys

-- GetDBSize is the table's Len, not the key count.
unfoldable pub get_db_size : Store → ℤ
get_db_size s = Table.len s.store

-- notifyWatchManager, under the test for a nil channel that every caller makes.
unfoldable pub notify_watch_manager : Str → Str → Store → Store
notify_watch_manager cmd key s = elim s.watch [
  | none ↦ s
  | some sent ↦ record s { watch = some (sent ++ (record { cmd = cmd; affected_key = key }) ∷ []) }
]

-- PutOptions with getDefaultPutOptions
pub record PutOptions : Type 0 where
  pub keep_ttl : Bool
  pub put_cmd : Str

abbrev pub default_put_options : PutOptions
default_put_options = record { keep_ttl = false; put_cmd = codes "SET" }
