-- ===== src/Wire.antt =====
-- The results that commands give: wire.Result of the protocol as internal/cmd fills it in, the errors
-- of internal/errors/errors.go, and run-time panics.
use dice_db_distributed_syst.Prelude.{ℕ, Bool, Option, none, some, List, Str, codes, nat_eq, str_eq}
use dice_db_distributed_syst.Prelude.Int.{ℤ}

pub data Status : Type 0 where
  ok err : Status

-- A member of a sorted set with its score and its rank.
pub record ZElement : Type 0 where
  pub member : Str
  pub score : ℤ
  pub rank : ℤ

-- The responses of the modelled commands.
pub data Response : Type 0 where
  empty : Response
  value : Str → Response
  number : ℤ → Response
  changed : Bool → Response
  strings : List Str → Response
  elements : List (Str × Str) → Response
  z_elements : List ZElement → Response
  z_element : Option ZElement → Response

pub record Result : Type 0 where
  pub message : Str
  pub status : Status
  pub response : Response
  pub fingerprint64 : ℕ

-- The errors that the handlers give, with the command or the option that their message names.
pub data CmdError : Type 0 where
  wrong_argument_count : Str → CmdError
  invalid_syntax : Str → CmdError
  invalid_value : Str → Str → CmdError
  invalid_expire_time : Str → CmdError
  integer_out_of_range : CmdError
  wrong_type_operation : CmdError
  unknown_object_type : CmdError
  unsupported_option : CmdError
  gt_lt_conflict : CmdError
  nx_conflict : CmdError
  bad_pattern : CmdError
  invalid_number_format : CmdError
  xx_nx_conflict : CmdError
  gt_lt_nx_conflict : CmdError
  incr_single_pair : CmdError
  unknown_cmd : Str → CmdError

-- (*CmdRes, error)
pub record Reply : Type 0 where
  pub result : Result
  pub error : Option CmdError

abbrev pub ok_text : Str
ok_text = codes "OK"

unfoldable pub ok_result : Response → Result
ok_result r = record { message = ok_text; status = Status.ok; response = r; fingerprint64 = 0 }

-- A result with Status_ERR and the error's message, beside a nil error.
unfoldable pub err_result : Str → Result
err_result m = record {
  message = m;
  status = Status.err;
  response = Response.empty;
  fingerprint64 = 0;
}

unfoldable pub done : Response → Reply
unfolding ok_result
done r = record { result = ok_result r; error = none }

unfoldable pub fail : Response → CmdError → Reply
unfolding ok_result
fail r e = record { result = ok_result r; error = some e }

-- A call that returns, or a run-time panic such as an index out of range.
pub data Run {ℓ} (A : Type ℓ) : Type ℓ where
  ok : A → Run A
  panic : Run A

infixl 5 ◌>>=◌
abbrev pub ◌>>=◌ {ℓ κ} : {A : Type ℓ} {B : Type κ} → Run A → (A → Run B) → Run B
ok a >>= f = f a
panic >>= f = panic
