-- ===== src/Eval.antt =====
-- What the commands of internal/eval answer: EvalResponse of eval.go, the RespType constants of
-- bitpos.go, and the errors that the modelled commands make. They are reached by tests, and no longer
-- by the server's registry of commands.
pub mod Fetch
pub mod HashMap
pub mod Hash
pub mod Sets
pub mod ByteArray
pub mod Bits
pub mod BitPos
pub mod BitField
pub mod Strings
pub mod Arrays
use dice_db_distributed_syst.Prelude.{Option, none, some, List, arith, Str, codes, nat_eq, str_eq}
use dice_db_distributed_syst.Prelude.Int.{ℤ}

pub data RespType : Type 0 where
  nil okay command_queued integer_zero integer_one integer_negative_one integer_negative_two
        empty_array :
      RespType

-- The `interface{}` of a result. Go's int and int64 are both a number here.
pub data EvalResult : Type 0 where
  nothing : EvalResult
  resp : RespType → EvalResult
  number : ℤ → EvalResult
  text : Str → EvalResult
  texts : List Str → EvalResult
  maybe_texts : List (Option Str) → EvalResult
  maybe_numbers : List (Option ℤ) → EvalResult
  page : Str → List Str → EvalResult

-- `general` is ErrGeneral or errors.New of a text.
pub data EvalError : Type 0 where
  wrong_argument_count : Str → EvalError
  invalid_syntax : Str → EvalError
  wrong_type_operation : EvalError
  integer_out_of_range : EvalError
  invalid_number_format : EvalError
  general : Str → EvalError

pub record EvalResponse : Type 0 where
  pub result : EvalResult
  pub error : Option EvalError

-- makeEvalResult and makeEvalError, which most commands write out.
unfoldable pub make_eval_result : EvalResult → EvalResponse
make_eval_result r = record { result = r; error = none }

unfoldable pub make_eval_error : EvalError → EvalResponse
make_eval_error e = record { result = nothing; error = some e }

abbrev pub wrong_type_text : Str
wrong_type_text = codes "-WRONGTYPE Operation against a key holding the wrong kind of value"
