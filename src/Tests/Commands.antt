-- ===== src/Tests/Commands.antt =====
-- The theorems on the commands (internal/cmd), the shards (internal/shardmanager) and the
-- variable-length integers (internal/dencoding) at concrete inputs, and runs of commands.
use dice_db_distributed_syst.Prelude.{
  ℕ, zero, suc, ◌+◌, ◌≡◌, refl, true, none, some, List, [], ◌∷◌, arith, if◌then◌else◌, length, Str,
  codes, str_beq, nat_eq, str_eq,
}
use dice_db_distributed_syst.Prelude.Int.{ℤ, pos, negsuc, ◌+ℤ◌, ◌*ℤ◌, leb_ℤ, wrap64}
use dice_db_distributed_syst.Table
use dice_db_distributed_syst.Table.{load}
use dice_db_distributed_syst.Object.{ObjectType, Value}
use dice_db_distributed_syst.Store.State.{Store}
use dice_db_distributed_syst.Store.View.{Entry, view}
use dice_db_distributed_syst.Store.Invariant.{IsValid}
use dice_db_distributed_syst.Wire.{panic, done, Response}
use dice_db_distributed_syst.Shard.{get_shard_for_key}
use dice_db_distributed_syst.Shard.Laws.{get_shard_for_key_panics}
use dice_db_distributed_syst.Varint.{encode_uint, decode_uint, get_encode_uint_size}
use dice_db_distributed_syst.Varint.RoundTrip.{decode_uint-encode_uint, length-encode_uint}
use dice_db_distributed_syst.Cmd.Params.{no_params}
use dice_db_distributed_syst.Cmd.Strings.{set_value}
use dice_db_distributed_syst.Cmd.Strings.Laws.{set_value-view, is_blocked, set_entry}
use dice_db_distributed_syst.Cmd.Counter.{do_incr, values, int_value}
use dice_db_distributed_syst.Cmd.Counter.Laws.{do_incr_present, with_number}
use dice_db_distributed_syst.Cmd.Expire.{expire_in}
use dice_db_distributed_syst.Cmd.Expire.Laws.{expire_in-view}
use dice_db_distributed_syst.Cmd.Keyspace.{del_loop}
use dice_db_distributed_syst.Cmd.Keyspace.Laws.{del_loop-view, listed}
use dice_db_distributed_syst.Cmd.Hash.{hset_loop}
use dice_db_distributed_syst.Cmd.Hash.Laws.{hset_loop-load, last_value}
use dice_db_distributed_syst.Tests.{demo, demo-IsValid, key_n, key_t, env}

abbrev counter : Entry
counter = record { value = Value.int (pos 41); type = ObjectType.int; expiry = some (pos 5000) }

shown : view (pos 100) key_n demo ≡ some counter
unfolding Table.get load str_beq
shown = refl

set_value-view_example :
    view (pos 100) key_n (set_value env (pos 100) key_n (codes "5") no_params (negsuc 0) demo) ≡ (
      if is_blocked no_params (view (pos 100) key_n demo)
      then view (pos 100) key_n demo
      else if str_beq key_n key_n
      then set_entry env (pos 100) (codes "5") no_params (negsuc 0) (view (pos 100) key_n demo)
      else view (pos 100) key_n demo)
set_value-view_example =
    set_value-view env (pos 100) key_n (codes "5") no_params (negsuc 0) key_n demo demo-IsValid refl

do_incr_present_example :
    ((do_incr (pos 100) key_n (pos 1) demo).0
      ≡ values (pos 41) (wrap64 (int_value counter.value +ℤ pos 1)))
    × (view (pos 100) key_n (do_incr (pos 100) key_n (pos 1) demo).1 ≡ (
        if str_beq key_n key_n
        then some (with_number counter (wrap64 (int_value counter.value +ℤ pos 1)))
        else view (pos 100) key_n demo))
do_incr_present_example =
    do_incr_present (pos 100) key_n key_n (pos 1) counter demo demo-IsValid shown refl

abbrev until : ℤ
until = wrap64 (pos 100 +ℤ wrap64 (pos 60 *ℤ pos 1000))

expire_in-view_example :
    ((expire_in (pos 100) key_n (pos 60) [] demo).0 ≡ done (Response.changed true))
    × (view (pos 100) key_n (expire_in (pos 100) key_n (pos 60) [] demo).1 ≡ (
        if str_beq key_n key_n
        then if leb_ℤ until (pos 100) then none else some (record counter { expiry = some until })
        else view (pos 100) key_n demo))
expire_in-view_example =
    expire_in-view (pos 100) (pos 60) key_n key_n counter demo demo-IsValid shown

del_loop-view_example :
    (view (pos 100) key_t (del_loop (key_n ∷ []) demo).1
      ≡ (if listed key_t (key_n ∷ []) then none else view (pos 100) key_t demo))
    × IsValid (del_loop (key_n ∷ []) demo).1
del_loop-view_example = del_loop-view (pos 100) (key_n ∷ []) demo key_t demo-IsValid

abbrev pairs : List Str
pairs = codes "f" ∷ codes "1" ∷ codes "g" ∷ codes "2" ∷ codes "f" ∷ codes "3" ∷ []

hset_loop-load_example :
    (load (codes "f") (hset_loop pairs []).1 ≡ last_value (codes "f") pairs (load (codes "f") []))
    × (length (hset_loop pairs []).1 ≡ (hset_loop pairs []).0 + 0)
hset_loop-load_example = hset_loop-load pairs [] (codes "f")

abbrev copies : ℕ → List Store
copies zero = []
copies (suc n) = demo ∷ copies n

get_shard_for_key_panics_example : get_shard_for_key (λ k. 1000) key_n (copies 130) ≡ panic
get_shard_for_key_panics_example =
    get_shard_for_key_panics (λ k. 1000) key_n (copies 130) (omega arith) (omega arith)
      (omega arith) (omega arith)

decode_uint-encode_uint_example : decode_uint (encode_uint 1000000) ≡ 1000000
decode_uint-encode_uint_example = decode_uint-encode_uint 1000000 (omega arith)

length-encode_uint_example : get_encode_uint_size 16383 ≡ suc (length (encode_uint 16383))
length-encode_uint_example = length-encode_uint 16383 (omega arith)
