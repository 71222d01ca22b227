-- ===== src/Wal/Laws.antt =====
-- The write-ahead log of internal/wal/wal_forge.go read back.
use dice_db_distributed_syst.Prelude.{
  ℕ, zero, suc, ◌+◌, ◌/◌, ◌%◌, ◌^◌, ◌≤◌, ◌<◌, ◌≡◌, refl, sym, ap, ◌∙◌, true, false, Option, some,
  List, [], ◌∷◌, ◌++◌, arith, ltb, leb, ◌==◌, ==_iff, length, drop, take, length-append, All, Str,
  nat_eq, str_eq,
}
use mathlib.Core.Path.{fun_ext}
use mathlib.Core.List.{append_assoc}
use dice_db_distributed_syst.Wal.{Codec, Element, buffer_size, put_uint32, get_uint32, entry}
use dice_db_distributed_syst.Wal.Replay.{
  full, read_full, Replayed, complete, stopped, out_of_range, and_then, replay_element,
  check_element, replay_round, replay_loop, replay_segment, replay_command,
}

take-append : (a b : Str) → take (length a) (a ++ b) ≡ a
take-append [] b = refl
take-append (x ∷ a) b = ap (λ l. x ∷ l) (take-append a b)

drop-append : (a b : Str) → drop (length a) (a ++ b) ≡ b
drop-append [] b = refl
drop-append (x ∷ a) b = drop-append a b

read_full-append : (a b : Str) → read_full (length a) (a ++ b) ≡ full a b
unfolding read_full
read_full-append a b =
    let h : leb (length a) (length (a ++ b)) ≡ true = ground (arith, length-append a b) in
    rw (h, take-append a b, drop-append a b) refl

read_full-8 :
    (a b c d e f g h : ℕ) (l : Str)
    → read_full 8 (a ∷ b ∷ c ∷ d ∷ e ∷ f ∷ g ∷ h ∷ l) ≡ full (a ∷ b ∷ c ∷ d ∷ e ∷ f ∷ g ∷ h ∷ []) l
read_full-8 a b c d e f g h l = read_full-append (a ∷ b ∷ c ∷ d ∷ e ∷ f ∷ g ∷ h ∷ []) l

get-put :
    (x : ℕ)
    → x < 2 ^ 32
    → get_uint32 (x % 256) (x / 256 % 256) (x / 65536 % 256) (x / 16777216 % 256) ≡ x
unfolding get_uint32
get-put x h = omega arith

-- What the replay relies on: what is marshalled comes back, and a checksum has 32 bits.
pub record CodecLaws {C : Type 0} (codec : Codec C) : Type 0 where
  pub back : (c : C) (b : Str) → codec.marshal c ≡ some b → codec.unmarshal b ≡ some c
  pub element_back :
      (el : Element) (b : Str)
      → codec.marshal_element el ≡ some b
      → codec.unmarshal_element b ≡ some el
  pub small : (b : Str) → codec.checksum b < 2 ^ 32

-- The bytes of entries that fit into the buffer.
abbrev pub Fits : Str → Type 0
Fits b = 8 + length b ≤ buffer_size

module _ {C : Type 0} (codec : Codec C) where
  unfoldable pub entries : List Str → Str
  unfolding entry
  entries [] = []
  entries (b ∷ bs) = entry codec b ++ entries bs

  pub entries-append : (bs cs : List Str) → entries (bs ++ cs) ≡ entries bs ++ entries cs
  unfolding entries
  entries-append [] cs = refl
  entries-append (b ∷ bs) cs =
      ap (λ l. entry codec b ++ l) (entries-append bs cs)
      ∙ sym (append_assoc (entry codec b) (entries bs) (entries cs))

module _ {C T : Type 0} (codec : Codec C) (cb : C → T → Option T) where
  abbrev pub deliver : List Str → T → Replayed T
  deliver [] t = complete t
  deliver (b ∷ bs) t = and_then (replay_element codec cb b t) (deliver bs)

module _ {C T : Type 0} (codec : Codec C) (laws : CodecLaws codec) (cb : C → T → Option T) where
  -- A round on an entry that fits, whatever checksum it has.
  pub replay_loop-header :
      (n x : ℕ) (b l : Str) (t : T)
      → x < 2 ^ 32
      → Fits b
      → replay_loop codec cb (suc n) (put_uint32 x ++ put_uint32 (length b) ++ b ++ l) t
        ≡ and_then (check_element codec cb x b t) (replay_loop codec cb n l)
  unfolding replay_loop put_uint32
  replay_loop-header n x b l t small h =
      let k = get-put x small in
      let s = get-put (length b) (omega arith) in
      let room : ltb buffer_size (length b) ≡ false = ground arith in
      let header : leb 8 (length (put_uint32 0 ++ put_uint32 0 ++ b ++ l)) ≡ true = ground arith in
      rw (replay_round, header, s, room, read_full-append b l, k) refl

  pub replay_loop-entry :
      (n : ℕ) (b l : Str) (t : T)
      → Fits b
      → replay_loop codec cb (suc n) (entry codec b ++ l) t
        ≡ and_then (replay_element codec cb b t) (replay_loop codec cb n l)
  unfolding entry put_uint32 check_element
  replay_loop-entry n b l t h =
      let same : (codec.checksum b == codec.checksum b) ≡ true = (==_iff _ _).1 refl in
      let checked : check_element codec cb (codec.checksum b) b t ≡ replay_element codec cb b t =
        rw same refl in
      replay_loop-header n (codec.checksum b) b l t (laws.small b) h
      ∙ ap (λ r. and_then r (replay_loop codec cb n l)) checked

  pub entry-length : (b : Str) → length (entry codec b) ≡ 8 + length b
  unfolding entry put_uint32
  entry-length b = omega arith

  -- On the entries of a segment, with fuel enough, each is checked and passed on.
  replay_loop-entries :
      (bs : List Str) (n : ℕ) (t : T)
      → All Fits bs
      → length (entries codec bs) < n
      → replay_loop codec cb n (entries codec bs) t ≡ deliver codec cb bs t
  unfolding entries replay_loop
  replay_loop-entries bs zero t h lt = absurd (omega arith)
  replay_loop-entries [] (suc n) t h lt = refl
  replay_loop-entries (b ∷ bs) (suc n) t h lt =
      let e = length-append (entry codec b) (entries codec bs) in
      let l = entry-length b in
      rw (replay_loop-entry n b (entries codec bs) t h.0) (
        ap (and_then (replay_element codec cb b t))
          (fun_ext (λ t'. replay_loop-entries bs n t' h.1 (omega arith))))

  pub replay_segment-entries :
      (bs : List Str) (t : T)
      → All Fits bs
      → replay_segment codec cb (entries codec bs) t ≡ deliver codec cb bs t
  unfolding replay_segment
  replay_segment-entries bs t h =
      replay_loop-entries bs (suc (length (entries codec bs))) t h (omega arith)

  pub and_then_assoc :
      (r : Replayed T) (f g : T → Replayed T)
      → and_then (and_then r f) g ≡ and_then r (λ t. and_then (f t) g)
  and_then_assoc (complete t) f g = refl
  and_then_assoc (stopped e t) f g = refl
  and_then_assoc (out_of_range t) f g = refl

  pub deliver-append :
      (bs cs : List Str) (t : T)
      → deliver codec cb (bs ++ cs) t ≡ and_then (deliver codec cb bs t) (deliver codec cb cs)
  deliver-append [] cs t = refl
  deliver-append (b ∷ bs) cs t =
      ap (and_then (replay_element codec cb b t)) (fun_ext (deliver-append bs cs))
      ∙ sym
          (and_then_assoc (replay_element codec cb b t) (deliver codec cb bs) (deliver codec cb cs))

  pub replay_command-append :
      (ls ks : List Str) (t : T)
      → replay_command codec cb (ls ++ ks) t
        ≡ and_then (replay_command codec cb ls t) (replay_command codec cb ks)
  unfolding replay_command
  replay_command-append [] ks t = refl
  replay_command-append (l ∷ ls) ks t =
      ap (and_then (replay_segment codec cb l t)) (fun_ext (replay_command-append ls ks))
      ∙ sym (
          and_then_assoc (replay_segment codec cb l t) (replay_command codec cb ls)
            (replay_command codec cb ks))
