-- ===== src/Tests/Logs.antt =====
-- The theorems on the write-ahead log (internal/wal) with a codec of plain lists, on sessions
-- (internal/auth) and on stores that a shard reaches.
use dice_db_distributed_syst.Prelude.{
  ◌%◌, ◌^◌, ◌≡◌, refl, sym, ap, ◌↔◌, true, false, Option, none, some, List, [], ◌∷◌, ◌++◌, arith,
  length, Str, codes, str_beq, nat_eq, str_eq,
}
use dice_db_distributed_syst.Prelude.Int.{pos}
use dice_db_distributed_syst.Object.{ObjectType, Value}
use dice_db_distributed_syst.Store.State.{new_store, new_obj, default_put_options}
use dice_db_distributed_syst.Store.Put.{put_helper}
use dice_db_distributed_syst.Store.Invariant.{IsValid}
use dice_db_distributed_syst.Cmd.Reach.{start, step, puts_new, Reachable-IsValid}
use dice_db_distributed_syst.Wal.{
  log_command, rotate_log, sync, Codec, Element, Files, WalForge, Called, done, failed, panics,
  init_wal, stop, put_uint32, entry,
}
use dice_db_distributed_syst.Wal.Laws.{CodecLaws, entries, deliver}
use dice_db_distributed_syst.Wal.Replay.{
  replay_command, replay_segment, and_then, stopped, crc_mismatch,
}
use dice_db_distributed_syst.Wal.RoundTrip.{
  Step, logs, rotates, syncs, first_segments, log_all, commands, call_all, replay_command-log_all,
}
use dice_db_distributed_syst.Wal.Rounds.{replay_rounds, replay_rounds-ends, replay_segment-corrupt}
use dice_db_distributed_syst.Auth.{
  AuthConfig, Bcrypt, new_users_store, validate, is_active, new_session, is_active_status, get,
}
use dice_db_distributed_syst.Auth.Laws.{
  IsAdmitted, opened, asked, Unadmitted-inactive, validate-IsAdmitted,
}
use dice_db_distributed_syst.Tests.{key_n}

abbrev marshal_element : Element → Option Str
marshal_element el = some (el.lsn ∷ el.timestamp ∷ el.payload)

abbrev unmarshal_element : Str → Option Element
unmarshal_element (n ∷ t ∷ b) = some (record { lsn = n; timestamp = t; payload = b })
unmarshal_element _ = none

abbrev codec : Codec Str
codec = record {
  marshal = λ c. some c;
  unmarshal = λ b. some b;
  marshal_element = marshal_element;
  unmarshal_element = unmarshal_element;
  checksum = λ b. length b % 2 ^ 32;
}

codec_laws : CodecLaws codec
codec_laws = record {
  back = λ c b h. sym h;
  element_back = λ el b h. sym (ap some_element h);
  small = λ b. omega arith;
}
  where
    some_element : Option Str → Option Element
    some_element none = none
    some_element (some b) = unmarshal_element b

abbrev files : Files
files = record { spill = λ b. 3; flushes = true; syncs = true; closes = true; opens = true }

-- The callback keeps the commands that it is given.
abbrev keep : Str → List Str → Option (List Str)
keep c l = some (c ∷ l)

-- A sync and a rotation by the tickers between two commands.
abbrev session_log : List (Step Str)
session_log =
    logs files 5 (codes "SET") ∷ syncs files ∷ rotates files ∷ logs files 6 (codes "GET") ∷ []

abbrev log_of : Called → WalForge
log_of (done w) = w
log_of (failed w) = w
log_of panics = init_wal 1 (λ i. [])

abbrev logged : WalForge
logged = log_of (log_all codec session_log (init_wal 1 (λ i. [])))

replay_command-log_all_example :
    replay_command codec keep (first_segments logged.cs_idx (stop files logged).disk) []
    ≡ call_all keep (commands session_log) []
unfolding init_wal log_command rotate_log sync
replay_command-log_all_example =
    replay_command-log_all codec codec_laws keep session_log 1 logged files [] refl refl

-- An entry and a byte of the next, and rounds after which the replay would stop elsewhere.
abbrev torn : Str
torn = entries codec ((1 ∷ 2 ∷ 3 ∷ []) ∷ []) ++ 9 ∷ []

replay_rounds-ends_example :
    replay_rounds codec keep (λ l t. stopped crc_mismatch (l ∷ t)) 20 torn []
    ≡ replay_segment codec keep torn []
unfolding entries entry put_uint32
replay_rounds-ends_example =
    replay_rounds-ends codec keep (λ l t. stopped crc_mismatch (l ∷ t)) 20 torn [] (omega arith)

replay_segment-corrupt_example :
    replay_segment codec keep
      (entries codec ((1 ∷ 2 ∷ 3 ∷ []) ∷ []) ++ (put_uint32 7 ++ put_uint32 1 ++ (5 ∷ []) ++ []))
      []
    ≡ and_then (deliver codec keep ((1 ∷ 2 ∷ 3 ∷ []) ∷ []) []) (λ t. stopped crc_mismatch t)
replay_segment-corrupt_example =
    replay_segment-corrupt codec codec_laws keep ((1 ∷ 2 ∷ 3 ∷ []) ∷ []) 7 (5 ∷ []) [] []
      (omega arith, tt) (omega arith) (omega arith) (ground arith)

Reachable-IsValid_example : IsValid (
    put_helper
      (pos 9)
      key_n
      (new_obj (pos 9) (Value.int (pos 1)) (pos 50) ObjectType.int (new_store none none 0)).0
      default_put_options
      (new_obj (pos 9) (Value.int (pos 1)) (pos 50) ObjectType.int (new_store none none 0)).1)
Reachable-IsValid_example =
    Reachable-IsValid
      (put_helper (pos 9) key_n
        (new_obj (pos 9) (Value.int (pos 1)) (pos 50) ObjectType.int (new_store none none 0)).0
        default_put_options
        (new_obj (pos 9) (Value.int (pos 1)) (pos 50) ObjectType.int (new_store none none 0)).1)
      (step (start none none 0) (
        puts_new (pos 9) (pos 50) (Value.int (pos 1)) ObjectType.int key_n default_put_options
          (new_store none none 0)))

abbrev bcrypt : Bcrypt
bcrypt = record { generate = λ s. some s; matches = str_beq }

abbrev config : AuthConfig
config = record { username = codes "dice"; password = codes "secret" }

validate-IsAdmitted_example :
    (((validate bcrypt config new_users_store 7 (codes "dice") (codes "no") (new_session 1 2)).0
        ≡ none)
      ↔ IsAdmitted bcrypt config new_users_store (codes "dice") (codes "no"))
    × (IsAdmitted bcrypt config new_users_store (codes "dice") (codes "no")
        → (is_active_status
              (validate bcrypt config new_users_store 7
                (codes "dice")
                (codes "no")
                (new_session 1 2)).1.status
            ≡ true)
          × ((validate bcrypt config new_users_store 7
                (codes "dice")
                (codes "no")
                (new_session 1 2)).1.user
              ≡ get (codes "dice") new_users_store))
    × (¬ IsAdmitted bcrypt config new_users_store (codes "dice") (codes "no")
        → (validate bcrypt config new_users_store 7 (codes "dice") (codes "no") (new_session 1 2)).1
          ≡ new_session 1 2)
validate-IsAdmitted_example =
    validate-IsAdmitted bcrypt config new_users_store 7 (codes "dice") (codes "no")
      (new_session 1 2)

Unadmitted-inactive_example :
    is_active_status (is_active config 3 (new_session 1 2)).1.status ≡ false
Unadmitted-inactive_example =
    Unadmitted-inactive bcrypt config new_users_store (is_active config 3 (new_session 1 2)).1
      (unfold str_beq in refl) (asked 3 (new_session 1 2) (opened 1 2))
