-- ===== src/Sorted/Laws.antt =====
-- ZADD of internal/types/sortedset.go against a map from members to scores.
use dice_db_distributed_syst.Prelude.{
  ℕ, ◌+◌, ◌≡◌, refl, ap, ◌∙◌, Bool, true, false, not, ◌&&◌, Option, none, some, List, [], ◌∷◌,
  arith, if◌then◌else◌, Str, str_beq, nat_eq, str_eq,
}
use dice_db_distributed_syst.Prelude.Int.{ℤ, pos, ◌+ℤ◌, ltb_ℤ}
use mathlib.Core.Path.{fun_ext}
use dice_db_distributed_syst.Cmd.Params.{ParamMap, has, xx, nx, gt, lt, ch, incr}
use dice_db_distributed_syst.Sorted.{
  SetOps, Tally, is_some, is_skipped, one_if, zadd_step, zadd_loop, zadd_pairs,
}

-- What the library documents: AddOrUpdate sets the score of its key and says whether the key is new,
-- and the count is the number of keys.
pub record SetLaws {S : Type 0} (ops : SetOps S) : Type 0 where
  pub get-add :
      (k j : Str) (v : ℤ) (s : S)
      → ops.get_by_key j (ops.add_or_update k v s).1
        ≡ (if str_beq k j then some v else ops.get_by_key j s)
  pub inserts :
      (k : Str) (v : ℤ) (s : S) → (ops.add_or_update k v s).0 ≡ not (is_some (ops.get_by_key k s))
  pub count-add :
      (k : Str) (v : ℤ) (s : S)
      → ops.get_count (ops.add_or_update k v s).1
        ≡ ops.get_count s + one_if (not (is_some (ops.get_by_key k s)))

-- Which scores the options let in, by the score that the member has.
abbrev pub lets_in : ParamMap → Option ℤ → ℤ → Bool
lets_in m none score = not (has xx m)
lets_in m (some current) score =
    not (has nx m)
    && (if has gt m then ltb_ℤ current score else true)
    && (if has lt m then ltb_ℤ score current else true)

is_skipped-lets_in :
    (m : ParamMap) (o : Option ℤ) (score : ℤ) → not (is_skipped m o score) ≡ lets_in m o score
unfolding is_skipped
is_skipped-lets_in m none score = refl
is_skipped-lets_in m (some current) score = ground arith

-- One pair on a map.
abbrev pub map_step : ParamMap → ℤ → Str → (Str → Option ℤ) → Str → Option ℤ
map_step m score member f j =
    if str_beq member j && lets_in m (f member) score then some score else f j

abbrev pub map_zadd : ParamMap → List (ℤ × Str) → (Str → Option ℤ) → Str → Option ℤ
map_zadd m [] f = f
map_zadd m ((score, member) ∷ l) f = map_zadd m l (map_step m score member f)

module _ {S : Type 0} (ops : SetOps S) (laws : SetLaws ops) (m : ParamMap) where
  zadd_step-map :
      (score : ℤ) (member j : Str) (t : Tally S)
      → (ops.get_by_key j (zadd_step ops m score member t).set
          ≡ map_step m score member (λ k. ops.get_by_key k t.set) j)
        × (ops.get_count (zadd_step ops m score member t).set + t.added
            ≡ ops.get_count t.set + (zadd_step ops m score member t).added)
  unfolding zadd_step
  zadd_step-map score member j t = ground (
    arith,
    laws.get-add member j score t.set,
    laws.inserts member score t.set,
    is_skipped-lets_in m (ops.get_by_key member t.set) score,
    laws.count-add member score t.set,
  )

  map_zadd-ext :
      (l : List (ℤ × Str)) (f g : Str → Option ℤ) (j : Str)
      → ((k : Str) → f k ≡ g k)
      → map_zadd m l f j ≡ map_zadd m l g j
  map_zadd-ext l f g j h = ap (λ w. map_zadd m l w j) (fun_ext h)

  zadd_loop-map :
      (l : List (ℤ × Str)) (j : Str) (t : Tally S)
      → (ops.get_by_key j (zadd_loop ops m l t).set ≡ map_zadd m l (λ k. ops.get_by_key k t.set) j)
        × (ops.get_count (zadd_loop ops m l t).set + t.added
            ≡ ops.get_count t.set + (zadd_loop ops m l t).added)
  unfolding zadd_loop
  zadd_loop-map [] j t = (refl, refl)
  zadd_loop-map ((score, member) ∷ l) j t =
      let t' = zadd_step ops m score member t in
      let r = zadd_loop-map l j t' in
      (
        r.0 ∙ map_zadd-ext l _ _ j (λ k. (zadd_step-map score member k t).0),
        omega (arith, r.1, (zadd_step-map score member j t).1),
      )

  -- ZADD without INCR sets the scores that its pairs, taken in order, set in a map: a pair counts
  -- unless NX, XX, GT or LT passes over it by the score that the member has then; the sorted set
  -- is assumed to keep scores by key.
  pub zadd_pairs-map :
      (l : List (ℤ × Str)) (j : Str) (s : S)
      → has incr m ≡ false
      → ops.get_by_key j (zadd_pairs ops m l s).1 ≡ map_zadd m l (λ k. ops.get_by_key k s) j
  unfolding zadd_pairs
  zadd_pairs-map [] j s h = refl
  zadd_pairs-map ((score, member) ∷ l) j s h =
      let r = zadd_loop-map ((score, member) ∷ l) j (record { added = 0; updated = 0; set = s }) in
      rw h (r.0)

  pos-add : (a b c : ℕ) → a + 0 ≡ b + c → pos a ≡ pos b +ℤ pos c
  unfolding ◌+ℤ◌
  pos-add a b c h = ground arith

  -- Without INCR and CH, the answer of ZADD is the number of members that the set has gained.
  pub zadd_pairs-count :
      (l : List (ℤ × Str)) (s : S)
      → has incr m ≡ false
      → has ch m ≡ false
      → pos (ops.get_count (zadd_pairs ops m l s).1)
        ≡ pos (ops.get_count s) +ℤ (zadd_pairs ops m l s).0
  unfolding zadd_pairs
  zadd_pairs-count [] s h g = pos-add (ops.get_count s) (ops.get_count s) 0 refl
  zadd_pairs-count ((score, member) ∷ l) s h g =
      let t : Tally S = record { added = 0; updated = 0; set = s } in
      let r = zadd_loop-map ((score, member) ∷ l) member t in rw h (rw g (pos-add _ _ _ (r.1)))
