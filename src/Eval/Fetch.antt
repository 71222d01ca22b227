-- ===== src/Eval/Fetch.antt =====
-- How the commands of internal/eval come to the value of a key: store.Get, object.AssertType on the
-- tag, and the assertion `obj.Value.(T)` in its one-result form, which panics.
pub mod Laws
use dice_db_distributed_syst.Prelude.{ℕ, Option, none, some, if◌then◌else◌, Str, nat_eq, str_eq}
use dice_db_distributed_syst.Prelude.Int.{ℤ}
use dice_db_distributed_syst.Object.{ObjectType, Value, Obj, wrong_type}
use dice_db_distributed_syst.Store.State.{Store, write_obj}
use dice_db_distributed_syst.Store.Access.{get}
use dice_db_distributed_syst.Wire.{Run, panic}
use dice_db_distributed_syst.Eval.{EvalResponse, EvalError, make_eval_error}

pub data Fetched {ℓ} (A : Type ℓ) : Type ℓ where
  missing mistyped cast_panic : Fetched A
  found : ℕ → A → Fetched A

unfoldable pub value_of {ℓ} : {A : Type ℓ} → ObjectType → (Value → Option A) → ℕ → Obj → Fetched A
unfolding wrong_type
value_of type cast r o =
    if wrong_type o.type type
    then mistyped
    else elim (cast o.value) [ none ↦ cast_panic | some a ↦ found r a ]

unfoldable pub fetch {ℓ} :
    {A : Type ℓ} → ObjectType → (Value → Option A) → ℤ → Str → Store → Fetched A × Store
unfolding get value_of
fetch type cast now key s =
    let (o, s') = get now key s in
    (elim o [ none ↦ missing | some r ↦ value_of type cast r (s'.objs r) ], s')

-- The rest of a command: what it answers without the key, its error for another type, and what it
-- does with the value.
abbrev pub Handler {ℓ} : Type ℓ → Type ℓ
Handler A = ℕ → A → Store → Run (EvalResponse × Store)

unfoldable pub on_fetched {ℓ} :
    {A : Type ℓ}
    → EvalResponse
    → EvalError
    → Handler A
    → Fetched A
    → Store
    → Run (EvalResponse × Store)
unfolding make_eval_error
on_fetched absent wrong handler missing s = Run.ok (absent, s)
on_fetched absent wrong handler mistyped s = Run.ok (make_eval_error wrong, s)
on_fetched absent wrong handler cast_panic s = panic
on_fetched absent wrong handler (found r a) s = handler r a s

-- A write into the value that an object points to.
unfoldable pub write_value : ℕ → Value → Store → Store
unfolding write_obj
write_value r v s = write_obj r (record (s.objs r) { value = v }) s
