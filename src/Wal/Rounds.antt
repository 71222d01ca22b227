-- ===== src/Wal/Rounds.antt =====
-- How far ReplayCommand of internal/wal/wal_forge.go comes on the bytes of a segment.
use dice_db_distributed_syst.Prelude.{
  ℕ, zero, suc, ◌^◌, ◌≤◌, ◌<◌, ◌≡◌, refl, sym, ap, ◌∙◌, ◌≢◌, true, false, Option, List, [], ◌∷◌,
  ◌++◌, arith, ltb, leb, ◌==◌, if◌then◌else◌, length, drop, length-append, All, Str, nat_eq, str_eq,
}
use mathlib.Core.Path.{fun_ext}
use mathlib.Core.List.{append_assoc}
use dice_db_distributed_syst.Wal.{Codec, entry, buffer_size, put_uint32, get_uint32}
use dice_db_distributed_syst.Wal.Replay.{
  ReadFull, eof, unexpected_eof, full, read_full, Replayed, stopped, reading_wal, reading_wal_data,
  crc_mismatch, out_of_range, and_then, replay_element, check_element, replay_round, replay_loop,
  replay_segment,
}
use dice_db_distributed_syst.Wal.Laws.{
  CodecLaws, Fits, entries, deliver, replay_loop-header, replay_loop-entry, entry-length,
  and_then_assoc,
}

drop-shrinks : (n : ℕ) (l : Str) → length (drop n l) ≤ length l
drop-shrinks zero l = omega arith
drop-shrinks (suc n) [] = omega arith
drop-shrinks (suc n) (x ∷ l) = omega (arith, drop-shrinks n l)

read_full-shrinks : (n : ℕ) (l b rest : Str) → read_full n l ≡ full b rest → length rest ≤ length l
unfolding read_full
read_full-shrinks n l b rest h = ground (arith, drop-shrinks n l)

full_ext :
    {T : Type 0} (r : ReadFull) (x : Replayed T) (f g : Str → Str → Replayed T)
    → ((b rest : Str) → r ≡ full b rest → f b rest ≡ g b rest)
    → (elim r [ full b rest ↦ f b rest | _ ↦ x ]) ≡ elim r [ full b rest ↦ g b rest | _ ↦ x ]
full_ext eof x f g h = refl
full_ext unexpected_eof x f g h = refl
full_ext (full b rest) x f g h = h b rest refl

module _ {C T : Type 0} (codec : Codec C) (cb : C → T → Option T) where
  replay_round-ext :
      (f g : Str → T → Replayed T) (l : Str) (t : T)
      → ((rest : Str) (t' : T) → length rest < length l → f rest t' ≡ g rest t')
      → replay_round codec cb f l t ≡ replay_round codec cb g l t
  unfolding replay_round
  replay_round-ext f g [] t h = refl
  replay_round-ext f g (a ∷ []) t h = refl
  replay_round-ext f g (a ∷ b ∷ []) t h = refl
  replay_round-ext f g (a ∷ b ∷ c ∷ []) t h = refl
  replay_round-ext f g (a ∷ b ∷ c ∷ d ∷ []) t h = refl
  replay_round-ext f g (a ∷ b ∷ c ∷ d ∷ e ∷ []) t h = refl
  replay_round-ext f g (a ∷ b ∷ c ∷ d ∷ e ∷ s0 ∷ []) t h = refl
  replay_round-ext f g (a ∷ b ∷ c ∷ d ∷ e ∷ s0 ∷ s1 ∷ []) t h = refl
  replay_round-ext f g (a ∷ b ∷ c ∷ d ∷ s0 ∷ s1 ∷ s2 ∷ s3 ∷ l) t h =
      let header : leb 8 (length (a ∷ b ∷ c ∷ d ∷ s0 ∷ s1 ∷ s2 ∷ s3 ∷ l)) ≡ true = ground arith in
      let size = get_uint32 s0 s1 s2 s3 in
      let check = check_element codec cb (get_uint32 a b c d) in
      rw (replay_round, header)
        (ap (λ r. if ltb buffer_size size then out_of_range t else r)
          (full_ext (read_full size l) (stopped reading_wal_data t)
            (λ e rest. and_then (check e t) (f rest)) (λ e rest. and_then (check e t) (g rest))
            (λ e rest r.
              ap (and_then (check e t))
                (fun_ext (λ t'. h rest t' (omega (arith, read_full-shrinks size l e rest r)))))))

  -- The loop of ReplayCommand with what comes after its first n rounds, if they do not end it.
  abbrev pub replay_rounds : (Str → T → Replayed T) → ℕ → Str → T → Replayed T
  replay_rounds after zero = after
  replay_rounds after (suc n) = replay_round codec cb (replay_rounds after n)

  replay_rounds-loop :
      (after : Str → T → Replayed T) (n m : ℕ) (l : Str) (t : T)
      → length l < n
      → length l < m
      → replay_rounds after n l t ≡ replay_loop codec cb m l t
  unfolding replay_loop
  replay_rounds-loop after zero m l t p q = absurd (omega arith)
  replay_rounds-loop after (suc n) zero l t p q = absurd (omega arith)
  replay_rounds-loop after (suc n) (suc m) l t p q =
      replay_round-ext (replay_rounds after n) (replay_loop codec cb m) l t
        (λ rest t' lt. replay_rounds-loop after n m rest t' (omega arith) (omega arith))

  -- The replay of a segment, whatever its bytes are, ends within one round more than it has
  -- bytes: what would come after that many rounds is never reached, and the result is the one of
  -- the replay.
  pub replay_rounds-ends :
      (after : Str → T → Replayed T) (n : ℕ) (l : Str) (t : T)
      → length l < n
      → replay_rounds after n l t ≡ replay_segment codec cb l t
  unfolding replay_segment
  replay_rounds-ends after n l t h = replay_rounds-loop after n (suc (length l)) l t h (omega arith)

  torn_header :
      (n : ℕ) (l : Str) (t : T)
      → 0 < length l
      → length l < 8
      → replay_loop codec cb (suc n) l t ≡ stopped reading_wal t
  unfolding replay_loop read_full
  torn_header n l t p q =
      let short : leb 8 (length l) ≡ false = ground arith in
      let some_bytes : (length l == 0) ≡ false = ground arith in
      rw (replay_round, short, some_bytes) refl

  torn_at :
      (m : ℕ) (l : Str) (t : T)
      → 0 < length l
      → length l < 8
      → length l < m
      → replay_loop codec cb m l t ≡ stopped reading_wal t
  torn_at zero l t p q lt = absurd (omega arith)
  torn_at (suc m) l t p q lt = torn_header m l t p q

module _ {C T : Type 0} (codec : Codec C) (laws : CodecLaws codec) (cb : C → T → Option T) where
  corrupt_at :
      (m x : ℕ) (b l : Str) (t : T)
      → Fits b
      → x < 2 ^ 32
      → x ≢ codec.checksum b
      → length (put_uint32 x ++ put_uint32 (length b) ++ b ++ l) < m
      → replay_loop codec cb m (put_uint32 x ++ put_uint32 (length b) ++ b ++ l) t
        ≡ stopped crc_mismatch t
  unfolding check_element
  corrupt_at zero x b l t f small ne lt = absurd (omega arith)
  corrupt_at (suc m) x b l t f small ne lt =
      let differ : (x == codec.checksum b) ≡ false = ground arith in
      replay_loop-header codec laws cb m x b l t small f ∙ rw (check_element, differ) refl

  -- Intact entries are passed on before what follows them is looked at.
  replay_loop-then :
      (bs : List Str) (n : ℕ) (l : Str) (t : T) (k : T → Replayed T)
      → All Fits bs
      → ((m : ℕ) (t' : T) → length l < m → replay_loop codec cb m l t' ≡ k t')
      → length (entries codec bs ++ l) < n
      → replay_loop codec cb n (entries codec bs ++ l) t ≡ and_then (deliver codec cb bs t) k
  unfolding entries
  replay_loop-then bs zero l t k h after lt = absurd (omega arith)
  replay_loop-then [] (suc n) l t k h after lt = after (suc n) t lt
  replay_loop-then (b ∷ bs) (suc n) l t k h after lt =
      let rest = entries codec bs ++ l in
      let whole = append_assoc (entry codec b) (entries codec bs) l in
      let e = ap length whole in
      let sizes = length-append (entry codec b) rest in
      let size = entry-length codec laws cb b in
      ap (λ s. replay_loop codec cb (suc n) s t) whole
      ∙ replay_loop-entry codec laws cb n b rest t h.0
      ∙ ap (and_then (replay_element codec cb b t))
          (fun_ext (λ t'. replay_loop-then bs n l t' k h.1 after (omega arith)))
      ∙ sym (and_then_assoc codec laws cb (replay_element codec cb b t) (deliver codec cb bs) k)

  -- A segment whose last header is cut short: the entries before it are replayed, and the replay then
  -- ends with an error.
  pub replay_segment-torn :
      (bs : List Str) (l : Str) (t : T)
      → All Fits bs
      → 0 < length l
      → length l < 8
      → replay_segment codec cb (entries codec bs ++ l) t
        ≡ and_then (deliver codec cb bs t) (λ t'. stopped reading_wal t')
  unfolding replay_segment
  replay_segment-torn bs l t h p q =
      replay_loop-then bs (suc (length (entries codec bs ++ l))) l t (λ t'. stopped reading_wal t')
        h (λ m t' lt. torn_at codec cb m l t' p q lt) (omega arith)

  -- On a segment with an entry whose checksum is not that of its bytes, the entries before it are
  -- replayed, and the replay then ends with the error that the checksums differ.
  pub replay_segment-corrupt :
      (bs : List Str) (x : ℕ) (b l : Str) (t : T)
      → All Fits bs
      → Fits b
      → x < 2 ^ 32
      → x ≢ codec.checksum b
      → replay_segment codec cb
          (entries codec bs ++ (put_uint32 x ++ put_uint32 (length b) ++ b ++ l))
          t
        ≡ and_then (deliver codec cb bs t) (λ t'. stopped crc_mismatch t')
  unfolding replay_segment
  replay_segment-corrupt bs x b l t h f small ne =
      let tail = put_uint32 x ++ put_uint32 (length b) ++ b ++ l in
      replay_loop-then bs (suc (length (entries codec bs ++ tail))) tail t
        (λ t'. stopped crc_mismatch t') h (λ m t' lt. corrupt_at m x b l t' f small ne lt)
        (omega arith)
