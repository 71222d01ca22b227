-- ===== src/Shard/Laws.antt =====
-- The shard of a key (internal/shardmanager/main.go).
use dice_db_distributed_syst.Prelude.{
  ℕ, ◌+◌, ◌-◌, ◌%◌, ◌^◌, ◌≤◌, ◌<◌, ◌≡◌, List, arith, length, Str, nat_eq, str_eq,
}
use native.Mathlib.Nat.{mod-eq_of_lt}
use dice_db_distributed_syst.Store.State.{Store}
use dice_db_distributed_syst.Wire.{Run, panic}
use dice_db_distributed_syst.Shard.{shard_modulus, get_shard_for_key}

module _ (hash : Str → ℕ) (k : Str) (sm : List Store) where
  -- With 1 to 127 shards every key has a shard, the hash modulo their number.
  get_shard_for_key_total :
      0 < length sm
      → length sm < 128
      → (get_shard_for_key hash k sm ≡ Run.ok (hash k % length sm))
        × (hash k % length sm < length sm)
  unfolding get_shard_for_key
  get_shard_for_key_total h g =
      let small : shard_modulus sm ≡ length sm = unfold shard_modulus in ground arith in
      rw small (ground arith, omega arith)

  -- With 128 to 255 shards the lookup panics for a key whose hash lies between the number of
  -- shards and 2^64 - 256 plus that number.
  pub get_shard_for_key_panics :
      127 < length sm
      → length sm < 256
      → length sm ≤ hash k
      → hash k < 2 ^ 64 - 256 + length sm
      → get_shard_for_key hash k sm ≡ panic
  unfolding get_shard_for_key
  get_shard_for_key_panics h g lo hi =
      let large : shard_modulus sm ≡ 2 ^ 64 - 256 + length sm =
        unfold shard_modulus in ground arith in
      rw large (ground (arith, mod-eq_of_lt hi))
