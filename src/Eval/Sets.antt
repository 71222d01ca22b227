-- ===== src/Eval/Sets.antt =====
-- SADD, SREM, SCARD and SMEMBERS of internal/eval/store_eval.go. A set is a map to empty structs, and
-- is written into in place: here it is the list of its members, none of them twice.
pub mod Laws
pub mod View
use dice_db_distributed_syst.Prelude.{
  ℕ, suc, Bool, false, ◌||◌, Option, none, some, List, [], ◌∷◌, ◌++◌, arith, if◌then◌else◌, length,
  Str, codes, str_beq, nat_eq, str_eq,
}
use dice_db_distributed_syst.Prelude.Int.{ℤ, pos, negsuc}
use dice_db_distributed_syst.Object.{ObjectType, Value, Obj}
use dice_db_distributed_syst.Store.State.{Store, PutOptions, new_obj}
use dice_db_distributed_syst.Store.Put.{put, put_helper}
use dice_db_distributed_syst.Wire.{Run, panic}
use dice_db_distributed_syst.Eval.{
  number, texts, wrong_type_operation, EvalResponse, make_eval_result, make_eval_error,
}
use dice_db_distributed_syst.Eval.Fetch.{
  Fetched, missing, mistyped, cast_panic, found, fetch, value_of, on_fetched, write_value,
}
use dice_db_distributed_syst.Eval.Hash.{Evaluated, argument_error}

abbrev pub as_set : Value → Option (List Str)
as_set (Value.set l) = some l
as_set _ = none

unfoldable pub has_member : Str → List Str → Bool
has_member x [] = false
has_member x (y ∷ l) = str_beq y x || has_member x l

unfoldable pub delete_member : Str → List Str → List Str
delete_member x [] = []
delete_member x (y ∷ l) = let rest = delete_member x l in if str_beq y x then rest else y ∷ rest

-- The loops of SADD and SREM: the count, and the set.
unfoldable pub sadd_loop : List Str → List Str → ℕ × List Str
unfolding has_member
sadd_loop [] l = (0, l)
sadd_loop (x ∷ xs) l =
    let present = sadd_loop xs l in
    let (n, l') = sadd_loop xs (l ++ x ∷ []) in if has_member x l then present else (suc n, l')

unfoldable pub srem_loop : List Str → List Str → ℕ × List Str
unfolding has_member delete_member
srem_loop [] l = (0, l)
srem_loop (x ∷ xs) l =
    let absent = srem_loop xs l in
    let (n, l') = srem_loop xs (delete_member x l) in if has_member x l then (suc n, l') else absent

-- A missing set is made and put first.
unfoldable pub set_or_new : ℤ → Str → Store → Fetched (List Str) × Store
unfolding fetch value_of new_obj put_helper
set_or_new now key s =
    let (f, s') = fetch ObjectType.set as_set now key s in
    elim f [
      | missing ↦
          let (r, s₁) = new_obj now (Value.set []) (negsuc 0) ObjectType.set s' in
          let s₂ = put_helper now key r (record { keep_ttl = false; put_cmd = codes "SET" }) s₁ in
          (value_of ObjectType.set as_set r (s₂.objs r), s₂)
      | other ↦ (other, s')
    ]

unfoldable pub eval_sadd : ℤ → List Str → Store → Evaluated
unfolding set_or_new on_fetched sadd_loop write_value make_eval_result make_eval_error
eval_sadd now (key ∷ x ∷ xs) s =
    let (f, s') = set_or_new now key s in
    on_fetched (make_eval_result (number (pos 0))) wrong_type_operation
      (λ r l s₁.
        let (n, l') = sadd_loop (x ∷ xs) l in
        Run.ok (make_eval_result (number (pos n)), write_value r (Value.set l') s₁))
      f s'
eval_sadd now _ s = argument_error "SADD" s

-- The set stays under its key where it has no member left.
unfoldable pub eval_srem : ℤ → List Str → Store → Evaluated
unfolding fetch on_fetched srem_loop write_value make_eval_result make_eval_error
eval_srem now (key ∷ x ∷ xs) s =
    let (f, s') = fetch ObjectType.set as_set now key s in
    on_fetched (make_eval_result (number (pos 0))) wrong_type_operation
      (λ r l s₁.
        let (n, l') = srem_loop (x ∷ xs) l in
        Run.ok (make_eval_result (number (pos n)), write_value r (Value.set l') s₁))
      f s'
eval_srem now _ s = argument_error "SREM" s

unfoldable pub eval_scard : ℤ → List Str → Store → Evaluated
unfolding fetch on_fetched make_eval_result make_eval_error
eval_scard now (key ∷ []) s =
    let (f, s') = fetch ObjectType.set as_set now key s in
    on_fetched (make_eval_result (number (pos 0))) wrong_type_operation
      (λ r l s₁. Run.ok (make_eval_result (number (pos (length l))), s₁)) f s'
eval_scard now _ s = argument_error "SCARD" s

unfoldable pub eval_smembers : ℤ → List Str → Store → Evaluated
unfolding fetch on_fetched make_eval_result make_eval_error
eval_smembers now (key ∷ []) s =
    let (f, s') = fetch ObjectType.set as_set now key s in
    on_fetched (make_eval_result (texts [])) wrong_type_operation
      (λ r l s₁. Run.ok (make_eval_result (texts l), s₁)) f s'
eval_smembers now _ s = argument_error "SMEMBERS" s
