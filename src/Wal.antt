-- ===== src/Wal.antt =====
-- internal/wal/wal_forge.go: the write-ahead log. A segment file is its bytes, and the buffered
-- writer is the bytes that it has not written yet. Protocol buffers (Marshal, Unmarshal) and the
-- checksum (hash/crc32) are parameters.
pub mod Laws
pub mod Replay
pub mod Contents
pub mod RoundTrip
pub mod Quiet
pub mod Rounds
use dice_db_distributed_syst.Prelude.{
  ℕ, suc, ◌+◌, ◌*◌, ◌/◌, ◌%◌, ◌^◌, Bool, ◌||◌, Option, none, some, [], ◌∷◌, ◌++◌, arith, ltb, ◌==◌,
  if◌then◌else◌, length, drop, take, Str, nat_eq, str_eq,
}

-- w.Element of github.com/dicedb/dicedb-go: a sequence number, a time and the bytes of a command.
-- Its element_type is always that of a command.
pub record Element : Type 0 where
  pub lsn : ℕ
  pub timestamp : ℕ
  pub payload : Str

pub record Codec (C : Type 0) : Type 0 where
  pub marshal : C → Option Str
  pub unmarshal : Str → Option C
  pub marshal_element : Element → Option Str
  pub unmarshal_element : Str → Option Element
  pub checksum : Str → ℕ

-- How the files behave during a call: how many bytes the buffered writer writes out by itself, and
-- which calls succeed.
pub record Files : Type 0 where
  pub spill : Str → ℕ
  pub flushes : Bool
  pub syncs : Bool
  pub closes : Bool
  pub opens : Bool

-- walForge: `disk` has the bytes of segment i (none where there is no such file), `pending` what
-- csWriter holds for segment cs_idx.
pub record WalForge : Type 0 where
  pub disk : ℕ → Str
  pub pending : Str
  pub cs_idx : ℕ
  pub cs_size : ℕ
  pub lsn : ℕ
  pub max_segment_size_bytes : ℕ

-- A call that returns, with no error or with one, or that panics.
pub data Called : Type 0 where
  done failed : WalForge → Called
  panics : Called

-- newWalForge and Init on a directory: segment 0 is opened to be appended to, whatever it holds.
unfoldable pub init_wal : ℕ → (ℕ → Str) → WalForge
init_wal max_mb disk = record {
  disk = disk;
  pending = [];
  cs_idx = 0;
  cs_size = 0;
  lsn = 0;
  max_segment_size_bytes = max_mb * 1024 * 1024 % 2 ^ 32;
}

abbrev pub buffer_size : ℕ
buffer_size = 10240

abbrev pub set_at : ℕ → Str → (ℕ → Str) → ℕ → Str
set_at i b f j = if j == i then b else f j

-- The first n pending bytes are written to the file.
unfoldable pub write_out : ℕ → WalForge → WalForge
write_out n w = record w {
  disk = set_at w.cs_idx (w.disk w.cs_idx ++ take n w.pending) w.disk;
  pending = drop n w.pending;
}

-- csWriter.Write
unfoldable pub buffered_write : Files → Str → WalForge → WalForge
unfolding write_out
buffered_write files b w =
    let w' = record w { pending = w.pending ++ b } in write_out (files.spill w'.pending) w'

-- sync: a flush that fails has written some of the bytes.
unfoldable pub sync : Files → WalForge → Called
unfolding write_out
sync files w =
    if files.flushes
    then (let w' = write_out (length w.pending) w in if files.syncs then done w' else failed w')
    else failed (write_out (files.spill w.pending) w)

-- The end of rotateLog: the next segment is opened, to be appended to.
unfoldable pub open_next : WalForge → WalForge
open_next w = record w { cs_idx = suc w.cs_idx; cs_size = 0; pending = [] }

unfoldable pub rotate_log : Files → WalForge → Called
unfolding sync open_next
rotate_log files w = elim (sync files w) [
  | done w' ↦
      if files.closes then (if files.opens then done (open_next w') else panics) else failed w'
  | failed w' ↦ failed w'
  | panics ↦ panics
]

unfoldable pub rotate_log_if_needed : Files → ℕ → WalForge → Called
unfolding rotate_log
rotate_log_if_needed files entry_size w =
    if ltb w.max_segment_size_bytes ((w.cs_size + entry_size) % 2 ^ 32)
    then rotate_log files w
    else done w

-- binary.LittleEndian.PutUint32 and Uint32
unfoldable pub put_uint32 : ℕ → Str
put_uint32 x = x % 256 ∷ x / 256 % 256 ∷ x / 65536 % 256 ∷ x / 16777216 % 256 ∷ []

unfoldable pub get_uint32 : ℕ → ℕ → ℕ → ℕ → ℕ
get_uint32 a b c d = a + b * 256 + c * 65536 + d * 16777216

module _ {C : Type 0} (codec : Codec C) where
  -- An entry: the checksum, the size and the bytes of an element.
  unfoldable pub entry : Str → Str
  unfolding put_uint32
  entry b = put_uint32 (codec.checksum b) ++ put_uint32 (length b) ++ b

  -- What LogCommand does once the segment is the right one. The panic leaves no log behind.
  unfoldable pub write_entry : Files → Str → WalForge → Called
  unfolding entry buffered_write
  write_entry files b w =
      let entry_size = (8 + length b) % 2 ^ 32 in
      if ltb buffer_size entry_size || ltb buffer_size (8 + length b)
      then panics
      else (let w' = buffered_write files (entry b) w in
          done (record w' { cs_size = (w'.cs_size + entry_size) % 2 ^ 32 }))

  unfoldable pub log_element : Files → Str → WalForge → Called
  unfolding rotate_log_if_needed write_entry
  log_element files b w = elim (rotate_log_if_needed files ((8 + length b) % 2 ^ 32) w) [
    | done w' ↦ write_entry files b w'
    | failed w' ↦ failed w'
    | panics ↦ panics
  ]

  unfoldable pub log_command : Files → ℕ → C → WalForge → Called
  unfolding log_element
  log_command files now c w = elim (codec.marshal c) [
    | none ↦ failed w
    | some payload ↦
        let w' = record w { lsn = (w.lsn + 1) % 2 ^ 64 } in
        elim (codec.marshal_element (record { lsn = w'.lsn; timestamp = now; payload = payload })) [
          | none ↦ failed w'
          | some b ↦ log_element files b w'
        ]
  ]

-- Stop: what is pending is written to the segment.
unfoldable pub stop : Files → WalForge → WalForge
unfolding sync
stop files w = elim (sync files w) [ done w' ↦ w' | failed w' ↦ w' | panics ↦ w ]
