-- ===== src/Tests/Sketches.antt =====
-- The theorems on the sketches of internal/eval and on sorted sets (internal/types) at small ones.
use dice_db_distributed_syst.Prelude.{
  ℕ, ◌+◌, ◌*◌, ◌≤◌, ◌≡◌, refl, not, none, List, [], ◌∷◌, ◌++◌, arith, length, Str, codes, str_beq,
  nat_eq, str_eq,
}
use dice_db_distributed_syst.Prelude.Int.{ℤ, pos}
use dice_db_distributed_syst.Table.{load, upsert}
use dice_db_distributed_syst.Table.Laws.{load-upsert, length-upsert}
use dice_db_distributed_syst.Cmd.Params.{no_params, has}
use dice_db_distributed_syst.Sorted.{SetOps, is_some, zadd_pairs}
use dice_db_distributed_syst.Sorted.Laws.{SetLaws, map_zadd, zadd_pairs-map}
use dice_db_distributed_syst.Sketch.{CountMinSketch, Source, new_count_min_sketch, estimate_count}
use dice_db_distributed_syst.Sketch.Laws.{update_all, counted, estimate_count-update_all}
use dice_db_distributed_syst.Sketch.Serial.{serialize, deserialize_cms}
use dice_db_distributed_syst.Sketch.RoundTrip.{outcome, deserialize_cms-serialize}
use dice_db_distributed_syst.Bloom.{new_bloom_filter, add, exists, integer_one}
use dice_db_distributed_syst.Bloom.Answers.{add_all, exists-add_all}

abbrev Pairs : Type 0
Pairs = List (Str × ℤ)

-- A sorted set as an association list, which keeps no order: the operations that ZADD uses.
abbrev list_ops : SetOps Pairs
list_ops = record {
  new_set = [];
  get_count = λ s. length s;
  get_by_key = load;
  add_or_update = λ k v s. (not (is_some (load k s)), upsert k v s);
  remove = λ k s. (none, s);
  find_rank = λ k s. 0;
  get_by_score_range = λ a b s. s;
  get_by_rank_range = λ a b s. s;
  pop_min = λ s. (none, s);
  pop_max = λ s. (none, s);
}

list_laws : SetLaws list_ops
list_laws = record {
  get-add = λ k j v s. load-upsert k j v s;
  inserts = λ k v s. refl;
  count-add = λ k v s. ground (arith, length-upsert k v s);
}

zadd_pairs-map_example :
    load
      (codes "b")
      (zadd_pairs list_ops no_params ((pos 3, codes "a") ∷ (pos 4, codes "b") ∷ []) []).1
    ≡ map_zadd no_params ((pos 3, codes "a") ∷ (pos 4, codes "b") ∷ []) (λ k. load k []) (codes "b")
unfolding has
zadd_pairs-map_example =
    zadd_pairs-map list_ops list_laws no_params ((pos 3, codes "a") ∷ (pos 4, codes "b") ∷ [])
      (codes "b") [] refl

abbrev lengths : Str → ℕ × ℕ
lengths s = (length s, 1)

abbrev events : List (Str × ℕ)
events = (codes "a", 2) ∷ (codes "bc", 5) ∷ (codes "a", 1) ∷ []

estimate_count-update_all_example :
    counted (codes "a") events
    ≤ estimate_count lengths (codes "a") (update_all lengths events (new_count_min_sketch 2 3))
unfolding str_beq
estimate_count-update_all_example =
    estimate_count-update_all lengths events 2 3 (codes "a") (omega arith) (omega arith)

abbrev filled : CountMinSketch
filled = record { depth = 1; width = 2; matrix = (4 ∷ 6 ∷ []) ∷ []; count = 10 }

abbrev both : List Source
both =
    record { key = codes "d"; weight = 2; sketch = filled }
    ∷ record { key = codes "s"; weight = 3; sketch = filled }
    ∷ []

abbrev hash_fns : List (Str → ℕ)
hash_fns = (λ s. length s * 7) ∷ (λ s. length s + 3) ∷ []

exists-add_all_example :
    exists
      (1 ∷ [])
      (add_all ((4 ∷ 5 ∷ []) ∷ []) (add (1 ∷ []) (add_all [] (new_bloom_filter hash_fns 20))).1)
    ≡ integer_one
exists-add_all_example = exists-add_all [] ((4 ∷ 5 ∷ []) ∷ []) 1 [] hash_fns 20 (omega arith)

deserialize_cms-serialize_example :
    deserialize_cms (serialize filled ++ (7 ∷ [])) ≡ outcome filled (7 ∷ [])
deserialize_cms-serialize_example =
    deserialize_cms-serialize filled (7 ∷ []) ((refl, (omega arith, (omega arith, tt))), tt) refl
      (omega arith) (omega arith) (omega arith) (omega arith)
