-- ===== src/Eval/Sets/View.antt =====
-- SADD and SREM of internal/eval/store_eval.go against the view of a store.
use dice_db_distributed_syst.Prelude.{
  ℕ, ◌≡◌, refl, ap, ◌∙◌, some, List, ◌∷◌, if◌then◌else◌, Str, str_beq, nat_eq, str_eq,
}
use dice_db_distributed_syst.Prelude.Int.{ℤ, pos}
use dice_db_distributed_syst.Table
use dice_db_distributed_syst.Object.{ObjectType, Value}
use dice_db_distributed_syst.Store.State.{Store}
use dice_db_distributed_syst.Store.Invariant.{IsValid}
use dice_db_distributed_syst.Store.View.{Entry, view}
use dice_db_distributed_syst.Wire.{Run}
use dice_db_distributed_syst.Eval.{number, make_eval_result}
use dice_db_distributed_syst.Eval.Fetch.{found, fetch, on_fetched, write_value}
use dice_db_distributed_syst.Eval.Fetch.Laws.{fetch-IsAt, write_value-view}
use dice_db_distributed_syst.Eval.Hash.{Evaluated}
use dice_db_distributed_syst.Eval.Sets.{
  as_set, sadd_loop, srem_loop, set_or_new, eval_sadd, eval_srem,
}
use dice_db_distributed_syst.Eval.Sets.Laws.{
  IsSetList, Added, Removed, sadd_loop-Added, srem_loop-Removed,
}

-- A command answers a number, and of what a client sees it changes the set of its key only.
abbrev pub SetChanged : ℤ → Str → Entry → Store → ℕ → List Str → Evaluated → Type 0
SetChanged now key e s n l' o =
    (s' : Store) × (o ≡ Run.ok (make_eval_result (number (pos n)), s'))
    × ((j : Str)
        → view now j s'
          ≡ (if str_beq key j then some (record e { value = Value.set l' }) else view now j s))

module _ (now : ℤ) (key x : Str) (xs l : List Str) (e : Entry) (s : Store) (v : IsValid s)
    (shown : view now key s ≡ some e) (is_set : e.type ≡ ObjectType.set)
    (value : e.value ≡ Value.set l) (distinct : IsSetList l) where
  -- What the key shows once its set is written.
  written-view :
      (l' : List Str) (s₁ : Store) (r : ℕ)
      → IsValid s₁
      → Table.get key s₁.store ≡ some r
      → ((j : Str) → view now j s₁ ≡ view now j s)
      → (j : Str)
      → view now j (write_value r (Value.set l') s₁)
        ≡ (if str_beq key j then some (record e { value = Value.set l' }) else view now j s)
  written-view l' s₁ r v₁ held kept j =
      write_value-view now key j r (Value.set l') e s₁ v₁ held (kept key ∙ shown)
      ∙ ap (λ w. if str_beq key j then some (record e { value = Value.set l' }) else w) (kept j)

  set_or_new-found :
      (r : ℕ)
      → (fetch ObjectType.set as_set now key s).0 ≡ found r l
      → set_or_new now key s ≡ (found r l, (fetch ObjectType.set as_set now key s).1)
  unfolding set_or_new
  set_or_new-found r h = rw (set_or_new, h) refl

  -- SADD on a key of a well-formed store that shows a set without duplicates: the set of the key
  -- has the old members and the arguments then, none of them twice, the answer is the number by
  -- which it has grown, the key keeps its expiry time, and no other key changes.
  pub eval_sadd-Added :
      (n : ℕ) × (l' : List Str) × Added (x ∷ xs) l n l'
      × SetChanged now key e s n l' (eval_sadd now (key ∷ x ∷ xs) s)
  unfolding eval_sadd on_fetched
  eval_sadd-Added =
      let a = fetch-IsAt ObjectType.set as_set l now key e s v shown is_set (ap as_set value) in
      let (n, l') = sadd_loop (x ∷ xs) l in
      (
        n,
        l',
        sadd_loop-Added (x ∷ xs) l distinct,
        (
          write_value a.at (Value.set l') (fetch ObjectType.set as_set now key s).1,
          rw (eval_sadd, set_or_new-found a.at a.fetched) refl,
          written-view l' (fetch ObjectType.set as_set now key s).1 a.at a.valid a.held a.kept,
        ),
      )

  -- SREM likewise: the set of the key loses the arguments, and the answer is the number by which it
  -- has shrunk.
  eval_srem-Removed :
      (n : ℕ) × (l' : List Str) × Removed (x ∷ xs) l n l'
      × SetChanged now key e s n l' (eval_srem now (key ∷ x ∷ xs) s)
  unfolding eval_srem on_fetched
  eval_srem-Removed =
      let a = fetch-IsAt ObjectType.set as_set l now key e s v shown is_set (ap as_set value) in
      let (n, l') = srem_loop (x ∷ xs) l in
      (
        n,
        l',
        srem_loop-Removed (x ∷ xs) l distinct,
        (
          write_value a.at (Value.set l') (fetch ObjectType.set as_set now key s).1,
          rw (eval_srem, a.fetched) refl,
          written-view l' (fetch ObjectType.set as_set now key s).1 a.at a.valid a.held a.kept,
        ),
      )
