-- ===== src/Wal/Replay.antt =====
-- internal/wal/wal_forge.go: ReplayCommand.
use dice_db_distributed_syst.Prelude.{
  ℕ, zero, suc, Option, none, some, List, [], ◌∷◌, ltb, leb, ◌==◌, if◌then◌else◌, length, drop,
  take, Str, nat_eq, str_eq,
}
use dice_db_distributed_syst.Wal.{Codec, buffer_size, get_uint32}

-- io.ReadFull: no byte at all is the end of the file.
pub data ReadFull : Type 0 where
  eof unexpected_eof : ReadFull
  full : Str → Str → ReadFull

unfoldable pub read_full : ℕ → Str → ReadFull
read_full n l =
    if leb n (length l)
    then full (take n l) (drop n l)
    else if length l == 0
    then eof
    else unexpected_eof

pub data ReplayError : Type 0 where
  reading_wal reading_wal_data crc_mismatch unmarshaling_entry unmarshaling_command replaying :
      ReplayError

-- A replay that has come to its end, that returns an error, or that panics, with the caller's state.
pub data Replayed (T : Type 0) : Type 0 where
  complete : T → Replayed T
  stopped : ReplayError → T → Replayed T
  out_of_range : T → Replayed T

abbrev pub and_then : {T : Type 0} → Replayed T → (T → Replayed T) → Replayed T
and_then (complete t) f = f t
and_then (stopped e t) f = stopped e t
and_then (out_of_range t) f = out_of_range t

module _ {C T : Type 0} (codec : Codec C) (cb : C → T → Option T) where
  -- What is done with the bytes of an element. The callback's error leaves the state that it had.
  unfoldable pub replay_element : Str → T → Replayed T
  replay_element b t = elim (codec.unmarshal_element b) [
    | none ↦ stopped unmarshaling_entry t
    | some el ↦ elim (codec.unmarshal el.payload) [
      | none ↦ stopped unmarshaling_command t
      | some c ↦ elim (cb c t) [ none ↦ stopped replaying t | some t' ↦ complete t' ]
    ]
  ]

  -- The sum that the header holds against the sum of the bytes.
  unfoldable pub check_element : ℕ → Str → T → Replayed T
  unfolding replay_element
  check_element crc b t =
      if crc == codec.checksum b then replay_element b t else stopped crc_mismatch t

  -- A round of the loop on a segment: `next` is the rounds that follow.
  unfoldable pub replay_round : (Str → T → Replayed T) → Str → T → Replayed T
  unfolding check_element read_full get_uint32
  replay_round next l t = elim (read_full 8 l) [
    | eof ↦ complete t
    | unexpected_eof ↦ stopped reading_wal t
    | full (c0 ∷ c1 ∷ c2 ∷ c3 ∷ s0 ∷ s1 ∷ s2 ∷ s3 ∷ _) rest ↦
        let entry_size = get_uint32 s0 s1 s2 s3 in
        if ltb buffer_size entry_size then out_of_range t else elim (read_full entry_size rest) [
          | full b rest' ↦ and_then (check_element (get_uint32 c0 c1 c2 c3) b t) (next rest')
          | _ ↦ stopped reading_wal_data t
        ]
    | full _ _ ↦ stopped reading_wal t
  ]

  -- The loop has no bound: a round takes 8 bytes at least, so that one round more than there are bytes
  -- is enough.
  unfoldable pub replay_loop : ℕ → Str → T → Replayed T
  unfolding replay_round
  replay_loop zero l t = complete t
  replay_loop (suc n) l t = replay_round (replay_loop n) l t

  unfoldable pub replay_segment : Str → T → Replayed T
  unfolding replay_loop
  replay_segment l t = replay_loop (suc (length l)) l t

  -- ReplayCommand on the segment files in the order in which segments() lists them.
  unfoldable pub replay_command : List Str → T → Replayed T
  unfolding replay_segment
  replay_command [] t = complete t
  replay_command (l ∷ ls) t = and_then (replay_segment l t) (replay_command ls)
