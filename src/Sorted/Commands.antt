-- ===== src/Sorted/Commands.antt =====
-- ZADD, ZCARD, ZCOUNT, ZRANGE, ZRANK, ZREM, ZPOPMIN and ZPOPMAX on one shard: internal/cmd/cmd_zadd.go,
-- cmd_zcard.go, cmd_zcount.go, cmd_zrange.go, cmd_zrank.go, cmd_zrem.go, cmd_zpopmin.go,
-- cmd_zpopmax.go. An object holds a pointer to its sorted set, a handle into a heap of sets.
use dice_db_distributed_syst.Prelude.{
  ℕ, zero, suc, ◌+◌, ◌%◌, Bool, false, Option, none, some, List, [], ◌∷◌, ◌==◌, if◌then◌else◌,
  length, Str, codes, str_beq, nat_eq, str_eq,
}
use dice_db_distributed_syst.Prelude.Int.{ℤ, pos, negsuc, ◌+ℤ◌, ◌-ℤ◌, ltb_ℤ}
use dice_db_distributed_syst.Upper.{to_upper}
use dice_db_distributed_syst.Object.{Obj, ObjectType, Value, wrong_type}
use dice_db_distributed_syst.Store.State.{Store, PutOptions, new_obj}
use dice_db_distributed_syst.Store.Put.{put_helper}
use dice_db_distributed_syst.Store.Access.{get}
use dice_db_distributed_syst.Strconv.{parse_int}
use dice_db_distributed_syst.Wire.{
  Response, Reply, Run, panic, ◌>>=◌, ZElement, CmdError, done, fail, wrong_argument_count,
  wrong_type_operation, invalid_number_format, integer_out_of_range, xx_nx_conflict,
  gt_lt_nx_conflict, incr_single_pair,
}
use dice_db_distributed_syst.Cmd.Params.{ParamMap, parse_params}
use dice_db_distributed_syst.Sorted.{
  SetOps, fine, xx_nx, gt_lt_nx, incr_pairs, zadd_check, zadd_pairs, zcount, zrange, one_if,
  is_some,
}

-- The store with the sets that its objects point to.
pub record SetStore (S : Type 0) : Type 0 where
  pub store : Store
  pub sets : ℕ → S
  pub next_set : ℕ

unfoldable pub write_set {ℓ} : {S : Type ℓ} → ℕ → S → (ℕ → S) → ℕ → S
write_set h t sets p = if p == h then t else sets p

-- The set of a key's object: `obj.Value.(*types.SortedSet)` panics on another Go type.
pub data Held : Type 0 where
  missing mistyped cast_panic : Held
  held : ℕ → Held

unfoldable pub set_of : Option Obj → Held
set_of none = missing
set_of (some o) =
    if wrong_type o.type ObjectType.sorted_set
    then mistyped
    else elim o.value [ Value.handle h ↦ held h | _ ↦ cast_panic ]

abbrev pub find : {S : Type 0} → ℤ → Str → SetStore S → Held × SetStore S
find now key z =
    let (o, s) = get now key z.store in
    (set_of (elim o [ none ↦ none | some r ↦ some (s.objs r) ]), record z { store = s })

abbrev pub Outcome : Type 0 → Type 0
Outcome S = Run (Reply × SetStore S)

-- The pairs of a score and a member; none for a score that is no number.
unfoldable pub score_pairs : List Str → Option (List (ℤ × Str))
score_pairs [] = some []
score_pairs (_ ∷ []) = some []
score_pairs (score ∷ member ∷ l) = elim (parse_int score) [
  | none ↦ none
  | some n ↦ elim (score_pairs l) [ none ↦ none | some ps ↦ some ((n, member) ∷ ps) ]
]

abbrev zadd_failed : CmdError → Reply
zadd_failed e = fail (Response.number (pos 0)) e

module _ {S : Type 0} (ops : SetOps S) where
  -- SortedSet.ZADD on a set of the heap, and the answer.
  unfoldable pub zadd_into : ParamMap → List (ℤ × Str) → ℕ → SetStore S → Reply × SetStore S
  unfolding zadd_check zadd_pairs write_set
  zadd_into m ps h z = elim (zadd_check m ps) [
    | fine ↦
        let (n, t) = zadd_pairs ops m ps (z.sets h) in
        (done (Response.number n), record z { sets = write_set h t z.sets })
    | xx_nx ↦ (zadd_failed xx_nx_conflict, z)
    | gt_lt_nx ↦ (zadd_failed gt_lt_nx_conflict, z)
    | incr_pairs ↦ (zadd_failed incr_single_pair, z)
  ]

  -- A new set goes under the key before the options are tested.
  unfoldable pub zadd_found : ℤ → Str → ParamMap → List (ℤ × Str) → Held → SetStore S → Outcome S
  unfolding zadd_into new_obj put_helper write_set
  zadd_found now key m ps missing z =
      let h = z.next_set in
      let (r, s) = new_obj now (Value.handle h) (negsuc 0) ObjectType.sorted_set z.store in
      let options : PutOptions = record { keep_ttl = false; put_cmd = codes "ZADD" } in
      Run.ok (
        zadd_into m ps h (record {
          store = put_helper now key r options s;
          sets = write_set h ops.new_set z.sets;
          next_set = suc h;
        }))
  zadd_found now key m ps mistyped z = Run.ok (zadd_failed wrong_type_operation, z)
  zadd_found now key m ps cast_panic z = panic
  zadd_found now key m ps (held h) z = Run.ok (zadd_into m ps h z)

  -- evalZADD once the options are read.
  unfoldable pub zadd_with : ℤ → Str → ParamMap → List Str → SetStore S → Outcome S
  unfolding zadd_found score_pairs
  zadd_with now key m others z =
      if length others % 2 == 0
      then elim (score_pairs others) [
        | none ↦ Run.ok (zadd_failed invalid_number_format, z)
        | some ps ↦ let (found, z') = find now key z in zadd_found now key m ps found z'
      ]
      else Run.ok (zadd_failed (wrong_argument_count (codes "ZADD")), z)

  unfoldable pub eval_zadd : ℤ → List Str → SetStore S → Outcome S
  unfolding zadd_with parse_params
  eval_zadd now (key ∷ a ∷ b ∷ rest) z = do
    (m, others) ← parse_params (a ∷ b ∷ rest)
    zadd_with now key m others z
  eval_zadd now _ z = Run.ok (zadd_failed (wrong_argument_count (codes "ZADD")), z)

  -- What the commands that read a set do: an answer for a missing key, and one from the set.
  abbrev reading : Response → (S → Response) → Held → SetStore S → Outcome S
  reading none_answer f missing z = Run.ok (done none_answer, z)
  reading none_answer f mistyped z = Run.ok (fail none_answer wrong_type_operation, z)
  reading none_answer f cast_panic z = panic
  reading none_answer f (held h) z = Run.ok (done (f (z.sets h)), z)

  unfoldable pub eval_zcard : ℤ → List Str → SetStore S → Outcome S
  eval_zcard now (key ∷ []) z =
      let (found, z') = find now key z in
      reading (Response.number (pos 0)) (λ s. Response.number (pos (ops.get_count s))) found z'
  eval_zcard now _ z =
      Run.ok (fail (Response.number (pos 0)) (wrong_argument_count (codes "ZCARD")), z)

  abbrev min_int64 : ℤ
  min_int64 = negsuc 9223372036854775807

  abbrev max_int64 : ℤ
  max_int64 = pos 9223372036854775807

  -- An end of ZCOUNT's range.
  unfoldable pub bound : Str → Option ℤ
  bound a =
      if str_beq a (codes "-inf")
      then some min_int64
      else if str_beq a (codes "+inf")
      then some max_int64
      else parse_int a

  -- evalZCOUNT once the ends of the range are read.
  unfoldable pub zcount_between : ℤ → Str → ℤ → ℤ → SetStore S → Outcome S
  unfolding zcount
  zcount_between now key lo hi z =
      let (found, z') = find now key z in
      if ltb_ℤ hi lo
      then Run.ok (done (Response.number (pos 0)), z)
      else reading (Response.number (pos 0)) (λ s. Response.number (pos (zcount ops lo hi s))) found
          z'

  unfoldable pub eval_zcount : ℤ → List Str → SetStore S → Outcome S
  unfolding zcount_between bound
  eval_zcount now (key ∷ lo ∷ hi ∷ []) z = elim (bound lo) [
    | none ↦ Run.ok (fail (Response.number (pos 0)) invalid_number_format, z)
    | some a ↦ elim (bound hi) [
      | none ↦ Run.ok (fail (Response.number (pos 0)) invalid_number_format, z)
      | some b ↦ zcount_between now key a b z
    ]
  ]
  eval_zcount now _ z =
      Run.ok (fail (Response.number (pos 0)) (wrong_argument_count (codes "ZCOUNT")), z)

  -- strings.EqualFold(arg, "BYSCORE")
  unfoldable pub is_by_score : List Str → Bool
  is_by_score [] = false
  is_by_score (a ∷ _) = str_beq (to_upper a) (codes "BYSCORE")

  -- evalZRANGE once the arguments are counted.
  unfoldable pub zrange_of : ℤ → Str → Str → Str → List Str → SetStore S → Outcome S
  unfolding is_by_score zrange
  zrange_of now key start stop options z = elim (parse_int start) [
    | none ↦ Run.ok (fail (Response.z_elements []) invalid_number_format, z)
    | some a ↦ elim (parse_int stop) [
      | none ↦ Run.ok (fail (Response.z_elements []) invalid_number_format, z)
      | some b ↦
          let (found, z') = find now key z in
          reading (Response.z_elements [])
            (λ s. Response.z_elements (zrange ops a b (is_by_score options) s)) found z'
    ]
  ]

  unfoldable pub eval_zrange : ℤ → List Str → SetStore S → Outcome S
  unfolding zrange_of
  eval_zrange now (key ∷ start ∷ stop ∷ []) z = zrange_of now key start stop [] z
  eval_zrange now (key ∷ start ∷ stop ∷ by ∷ []) z = zrange_of now key start stop (by ∷ []) z
  eval_zrange now _ z =
      Run.ok (fail (Response.z_elements []) (wrong_argument_count (codes "ZRANGE")), z)

  -- The answer of ZRANK; rank 0 stands for a member that is not there.
  unfoldable pub zrank_answer : Str → S → ZElement
  zrank_answer member s = elim (ops.get_by_key member s) [
    | none ↦ record { member = member; score = pos 0; rank = pos 0 }
    | some score ↦
        if ops.find_rank member s == 0
        then record { member = member; score = pos 0; rank = pos 0 }
        else record { member = member; score = score; rank = pos (ops.find_rank member s) }
  ]

  -- evalZRANK reads two arguments with no test; a wrong type answers with ZRANGE's empty list.
  unfoldable pub eval_zrank : ℤ → List Str → SetStore S → Outcome S
  unfolding zrank_answer
  eval_zrank now (key ∷ member ∷ _) z =
      let (found, z') = find now key z in
      elim found [
        | missing ↦ Run.ok (done (Response.z_element none), z')
        | mistyped ↦ Run.ok (fail (Response.z_elements []) wrong_type_operation, z')
        | cast_panic ↦ panic
        | held h ↦ Run.ok (done (Response.z_element (some (zrank_answer member (z'.sets h)))), z')
      ]
  eval_zrank now _ z = panic

  unfoldable pub zrem_loop : List Str → S → ℕ × S
  zrem_loop [] s = (0, s)
  zrem_loop (member ∷ l) s =
      let (o, s₁) = ops.remove member s in
      let (n, s₂) = zrem_loop l s₁ in (one_if (is_some o) + n, s₂)

  unfoldable pub eval_zrem : ℤ → List Str → SetStore S → Outcome S
  unfolding zrem_loop write_set
  eval_zrem now (key ∷ member ∷ rest) z =
      let (found, z') = find now key z in
      elim found [
        | missing ↦ Run.ok (done (Response.number (pos 0)), z')
        | mistyped ↦ Run.ok (fail (Response.number (pos 0)) wrong_type_operation, z')
        | cast_panic ↦ panic
        | held h ↦
            let (n, t) = zrem_loop (member ∷ rest) (z'.sets h) in
            Run.ok (done (Response.number (pos n)), record z' { sets = write_set h t z'.sets })
      ]
  eval_zrem now _ z =
      Run.ok (fail (Response.number (pos 0)) (wrong_argument_count (codes "ZREM")), z)

  -- The loop of ZPOPMIN and ZPOPMAX, with the rank of the next element.
  unfoldable pub pop_loop : (S → Option (Str × ℤ) × S) → (ℤ → ℤ) → ℕ → ℤ → S → List ZElement × S
  pop_loop pop next zero rank s = ([], s)
  pop_loop pop next (suc n) rank s =
      let (o, s₁) = pop s in
      let (l, s₂) = pop_loop pop next n (next rank) s₁ in
      elim o [
        | none ↦ ([], s₁)
        | some x ↦ (record { member = x.0; score = x.1; rank = rank } ∷ l, s₂)
      ]

  -- The count of ZPOPMIN and ZPOPMAX; further arguments are not looked at.
  unfoldable pub pop_count : List Str → Option ℕ
  pop_count [] = some 1
  pop_count (a ∷ _) = elim (parse_int a) [
    | none ↦ none
    | some (pos n) ↦ if n == 0 then none else some n
    | some (negsuc n) ↦ none
  ]

  abbrev popping : (ℕ → S → List ZElement × S) → ℤ → Str → List Str → SetStore S → Outcome S
  popping run now key rest z = elim (pop_count rest) [
    | none ↦ Run.ok (fail (Response.z_elements []) integer_out_of_range, z)
    | some n ↦
        let (found, z') = find now key z in
        elim found [
          | missing ↦ Run.ok (done (Response.z_elements []), z')
          | mistyped ↦ Run.ok (fail (Response.z_elements []) wrong_type_operation, z')
          | cast_panic ↦ panic
          | held h ↦
              let (l, t) = run n (z'.sets h) in
              Run.ok (done (Response.z_elements l), record z' { sets = write_set h t z'.sets })
        ]
  ]

  unfoldable pub eval_zpopmin : ℤ → List Str → SetStore S → Outcome S
  unfolding pop_loop pop_count write_set
  eval_zpopmin now [] z =
      Run.ok (fail (Response.z_elements []) (wrong_argument_count (codes "ZPOPMIN")), z)
  eval_zpopmin now (key ∷ rest) z =
      popping (λ n s. pop_loop ops.pop_min (λ r. r +ℤ pos 1) n (pos 1) s) now key rest z

  unfoldable pub eval_zpopmax : ℤ → List Str → SetStore S → Outcome S
  unfolding pop_loop pop_count write_set
  eval_zpopmax now [] z =
      Run.ok (fail (Response.z_elements []) (wrong_argument_count (codes "ZPOPMAX")), z)
  eval_zpopmax now (key ∷ rest) z =
      popping (λ n s. pop_loop ops.pop_max (λ r. r -ℤ pos 1) n (pos (ops.get_count s)) s) now key
        rest z
