-- ===== src/Table/Laws.antt =====
-- Laws of the map of internal/common/regmap.go.
use dice_db_distributed_syst.Prelude.{
  suc, ◌≡◌, refl, true, none, some, List, [], ◌∷◌, arith, if◌then◌else◌, length, Eq, nat_eq, str_eq,
}
use dice_db_distributed_syst.Table.{RegMap, load, upsert, remove, put, get, delete, Distinct, size}

pub beq_refl {ℓ} : {K : Type ℓ} ⦃e : Eq K⦄ (k : K) → e.beq k k ≡ true
beq_refl ⦃e⦄ k = (e.beq_iff k k).1 refl

module _ {ℓ κ} {K : Type ℓ} {V : Type κ} ⦃e : Eq K⦄ where
  pub load-upsert :
      (k j : K) (v : V) (l : List (K × V))
      → load j (upsert k v l) ≡ (if e.beq k j then some v else load j l)
  unfolding load upsert
  load-upsert k j v [] = refl
  load-upsert k j v ((i, w) ∷ l) =
      ground (arith, load-upsert k j v l, e.beq_iff i k, e.beq_iff i j, e.beq_iff k j)

  pub load-remove :
      (k j : K) (l : List (K × V)) → load j (remove k l) ≡ (if e.beq k j then none else load j l)
  unfolding load remove
  load-remove k j [] = ground arith
  load-remove k j ((i, w) ∷ l) =
      ground (arith, load-remove k j l, e.beq_iff i k, e.beq_iff i j, e.beq_iff k j)

  pub Distinct-upsert : (k : K) (v : V) (l : List (K × V)) → Distinct l → Distinct (upsert k v l)
  unfolding upsert load
  Distinct-upsert k v [] d = (refl, tt)
  Distinct-upsert k v ((i, w) ∷ l) d =
      ground (arith, Distinct-upsert k v l d.1, load-upsert k i v l, e.beq_iff i k, e.beq_iff k i)

  pub Distinct-remove : (k : K) (l : List (K × V)) → Distinct l → Distinct (remove k l)
  unfolding remove
  Distinct-remove k [] d = tt
  Distinct-remove k ((i, w) ∷ l) d = ground (arith, Distinct-remove k l d.1, load-remove k i l)

  pub length-upsert :
      (k : K) (v : V) (l : List (K × V))
      → length (upsert k v l) ≡ elim (load k l) [ none ↦ suc (length l) | some _ ↦ length l ]
  unfolding upsert load
  length-upsert k v [] = refl
  length-upsert k v ((i, w) ∷ l) = ground (arith, length-upsert k v l)

  pub remove-of_none : (k : K) (l : List (K × V)) → load k l ≡ none → remove k l ≡ l
  unfolding remove load
  remove-of_none k [] h = refl
  remove-of_none k ((i, w) ∷ l) h = ground (arith, remove-of_none k l)

  pub length-remove :
      (k : K) (l : List (K × V))
      → Distinct l
      → length l
        ≡ elim (load k l) [ none ↦ length (remove k l) | some _ ↦ suc (length (remove k l)) ]
  unfolding remove load
  length-remove k [] d = refl
  length-remove k ((i, w) ∷ l) d =
      ground (arith, length-remove k l d.1, remove-of_none k l, e.beq_iff i k, e.beq_iff k i)

  pub get-put :
      (k j : K) (v : V) (t : RegMap K V)
      → get j (put k v t) ≡ (if e.beq k j then some v else get j t)
  unfolding get put
  get-put k j v t = load-upsert k j v t.m

  pub get-delete :
      (k j : K) (t : RegMap K V) → get j (delete k t) ≡ (if e.beq k j then none else get j t)
  unfolding get delete
  get-delete k j t = load-remove k j t.m

  pub size-put :
      (k : K) (v : V) (t : RegMap K V)
      → size (put k v t) ≡ elim (get k t) [ none ↦ suc (size t) | some _ ↦ size t ]
  unfolding get put
  size-put k v t = length-upsert k v t.m

  pub size-delete :
      (k : K) (t : RegMap K V)
      → Distinct t.m
      → size t ≡ elim (get k t) [ none ↦ size (delete k t) | some _ ↦ suc (size (delete k t)) ]
  unfolding get delete
  size-delete k t d = length-remove k t.m d
