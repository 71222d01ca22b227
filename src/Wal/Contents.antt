-- ===== src/Wal/Contents.antt =====
-- What LogCommand of internal/wal/wal_forge.go does to the bytes of the segments, those that are
-- still in the writer's buffer included.
use dice_db_distributed_syst.Prelude.{
  ℕ, zero, suc, ◌+◌, ◌%◌, ◌^◌, ◌≤◌, ◌<◌, ◌≡◌, refl, sym, ap, ◌∙◌, ◌⊎◌, inl, inr, false, some, [],
  ◌∷◌, ◌++◌, arith, ◌==◌, if◌then◌else◌, ==_iff, if_both, Bool-cases, Option-cases, length, drop,
  take, Str, nat_eq, str_eq,
}
use mathlib.Core.Path.{subst}
use mathlib.Core.List.{append_assoc, append-nil}
use dice_db_distributed_syst.Wal.{
  Codec, Files, WalForge, Called, done, failed, panics, write_out, buffered_write, sync, open_next,
  rotate_log, rotate_log_if_needed, entry, write_entry, log_element, log_command,
}
use dice_db_distributed_syst.Wal.Laws.{Fits}

abbrev pub content : WalForge → ℕ → Str
content w i = if i == w.cs_idx then w.disk i ++ w.pending else w.disk i

take-drop : (n : ℕ) (l : Str) → take n l ++ drop n l ≡ l
take-drop zero l = refl
take-drop (suc n) [] = refl
take-drop (suc n) (x ∷ l) = ap (λ k. x ∷ k) (take-drop n l)

pub take-all : (l : Str) → take (length l) l ≡ l
take-all [] = refl
take-all (x ∷ l) = ap (λ k. x ∷ k) (take-all l)

drop-all : (l : Str) → drop (length l) l ≡ []
drop-all [] = refl
drop-all (x ∷ l) = drop-all l

-- Writing out moves bytes, and the segments stay what they are.
pub write_out-content : (n i : ℕ) (w : WalForge) → content (write_out n w) i ≡ content w i
unfolding write_out
write_out-content n i w = elim (Bool-cases (i == w.cs_idx)) [
  | inl e ↦
      let same : i ≡ w.cs_idx = (==_iff _ _).0 e in
      rw (e, same)
        (append_assoc (w.disk w.cs_idx) (take n w.pending) (drop n w.pending)
          ∙ ap (λ l. w.disk w.cs_idx ++ l) (take-drop n w.pending))
  | inr e ↦ rw e refl
]

-- A log goes from w to w' by an entry at the end of its current segment, which may be a new one.
pub record Appends (b : Str) (w w' : WalForge) : Type 0 where
  pub idx : (w'.cs_idx ≡ w.cs_idx) ⊎ (w'.cs_idx ≡ suc w.cs_idx)
  pub bytes : (i : ℕ) → content w' i ≡ (if i == w'.cs_idx then content w i ++ b else content w i)

pub buffered_write-bytes :
    (files : Files) (b : Str) (w : WalForge) (i : ℕ)
    → content (buffered_write files b w) i
      ≡ (if i == w.cs_idx then content w i ++ b else content w i)
unfolding buffered_write
buffered_write-bytes files b w i =
    let w' = record w { pending = w.pending ++ b } in
    let m = write_out-content (files.spill w'.pending) i w' in
    elim (Bool-cases (i == w.cs_idx)) [
      | inl e ↦ m ∙ rw e (sym (append_assoc (w.disk i) w.pending b))
      | inr e ↦ m ∙ rw e refl
    ]

-- The next segment takes nothing from the bytes that a full write has left.
pub open_next-content :
    (i : ℕ) (w : WalForge) → content (open_next (write_out (length w.pending) w)) i ≡ content w i
unfolding write_out open_next
open_next-content i w = elim (Bool-cases (i == w.cs_idx)) [
  | inl e ↦
      let same : i ≡ w.cs_idx = (==_iff _ _).0 e in
      let later : (w.cs_idx == suc w.cs_idx) ≡ false = ground arith in
      rw (e, same) (rw (later, take-all w.pending) refl)
  | inr e ↦ rw e (if_both (λ l. l ≡ w.disk i) (i == suc w.cs_idx) (append-nil (w.disk i)) refl)
]

pub rotate_log-done :
    (files : Files) (w w' : WalForge)
    → rotate_log files w ≡ done w'
    → open_next (write_out (length w.pending) w) ≡ w'
unfolding rotate_log sync
rotate_log-done files w w' h = ground arith

rotate_log_if_needed-done :
    (files : Files) (n : ℕ) (w w' : WalForge)
    → rotate_log_if_needed files n w ≡ done w'
    → (w ≡ w') ⊎ (open_next (write_out (length w.pending) w) ≡ w')
unfolding rotate_log_if_needed
rotate_log_if_needed-done files n w w' h = ground (arith, rotate_log-done files w w')

pub called_then :
    (r : Called) (f : WalForge → Called) (w' : WalForge)
    → (elim r [ done w ↦ f w | failed w ↦ failed w | panics ↦ panics ]) ≡ done w'
    → (w : WalForge) × (r ≡ done w) × (f w ≡ done w')
called_then (done w) f w' h = (w, refl, h)
called_then (failed w) f w' h = absurd (ground arith)
called_then panics f w' h = absurd (ground arith)

module _ {C : Type 0} (codec : Codec C) where
  -- A command that is logged has been marshalled into the bytes of an entry that fits the buffer.
  pub log_command-done :
      (files : Files) (now : ℕ) (c : C) (w w' : WalForge)
      → log_command codec files now c w ≡ done w'
      → (payload b : Str) × (codec.marshal c ≡ some payload)
        × (codec.marshal_element
              (record { lsn = (w.lsn + 1) % 2 ^ 64; timestamp = now; payload = payload })
            ≡ some b)
        × (log_element codec files b (record w { lsn = (w.lsn + 1) % 2 ^ 64 }) ≡ done w')
  unfolding log_command
  log_command-done files now c w w' h = elim (Option-cases (codec.marshal c)) [
    | inl e ↦ absurd (ground arith)
    | inr (payload, e) ↦
        elim (Option-cases (
          codec.marshal_element
            (record { lsn = (w.lsn + 1) % 2 ^ 64; timestamp = now; payload = payload }))) [
              | inl g ↦ absurd (ground arith)
              | inr (b, g) ↦ (payload, b, e, g, ground arith)
            ]
  ]

  write_entry-done :
      (files : Files) (b : Str) (w w' : WalForge)
      → write_entry codec files b w ≡ done w'
      → Fits b × (w.cs_idx ≡ w'.cs_idx) × Appends (entry codec b) w w'
  unfolding write_entry buffered_write write_out
  write_entry-done files b w w' h =
      let v = buffered_write files (entry codec b) w in
      let fits : Fits b = ground arith in
      let e : record v { cs_size = (v.cs_size + (8 + length b) % 2 ^ 32) % 2 ^ 32 } ≡ w' =
        ground arith in
      (
        fits,
        ap (λ u. u.cs_idx) e,
        subst (Appends (entry codec b) w) e
            (record { idx = inl refl; bytes = buffered_write-bytes files (entry codec b) w }),
      )

  Appends-after :
      (b : Str) (w v w' : WalForge)
      → ((w ≡ v) ⊎ (open_next (write_out (length w.pending) w) ≡ v))
      → v.cs_idx ≡ w'.cs_idx
      → Appends b v w'
      → Appends b w w'
  unfolding open_next write_out
  Appends-after b w v w' (inl e) s a = subst (λ u. Appends b u w') (sym e) a
  Appends-after b w v w' (inr e) s a = record {
    idx = inr (sym s ∙ ap (λ u. u.cs_idx) (sym e));
    bytes = λ i.
        let c : content v i ≡ content w i = ap (λ u. content u i) (sym e) ∙ open_next-content i w in
        a.bytes i ∙ ap (λ l. if i == w'.cs_idx then l ++ b else l) c;
  }

  pub log_element-done :
      (files : Files) (b : Str) (w w' : WalForge)
      → log_element codec files b w ≡ done w'
      → Fits b × Appends (entry codec b) w w'
  unfolding log_element
  log_element-done files b w w' h =
      let (v, r, e) =
        called_then (rotate_log_if_needed files ((8 + length b) % 2 ^ 32) w)
          (write_entry codec files b) w' h in
      let a = write_entry-done files b v w' e in
      (
        a.0,
        Appends-after (entry codec b) w v w'
            (rotate_log_if_needed-done files ((8 + length b) % 2 ^ 32) w v r) a.1 a.2,
      )

  write_entry-size :
      (files : Files) (b : Str) (w w' : WalForge)
      → write_entry codec files b w ≡ done w'
      → w.cs_size + (8 + length b) < 2 ^ 32
      → (w'.cs_size ≡ w.cs_size + (8 + length b))
        × (w'.max_segment_size_bytes ≡ w.max_segment_size_bytes)
  unfolding write_entry buffered_write write_out
  write_entry-size files b w w' h small = ground arith

  rotate_log_if_needed-size :
      (files : Files) (n : ℕ) (w v : WalForge)
      → rotate_log_if_needed files (n % 2 ^ 32) w ≡ done v
      → w.cs_size + n < 2 ^ 32
      → ((v.cs_size ≡ w.cs_size) × (v.cs_size + n ≤ v.max_segment_size_bytes)) ⊎ (v.cs_size ≡ 0)
  unfolding rotate_log_if_needed open_next write_out
  rotate_log_if_needed-size files n w v h small = ground (arith, rotate_log-done files w v)

  -- A segment outgrows the maximal size only by an entry that is the only one in it.
  pub log_element-size :
      (files : Files) (b : Str) (w w' : WalForge)
      → log_element codec files b w ≡ done w'
      → w.cs_size + (8 + length b) < 2 ^ 32
      → (w'.cs_size ≤ w'.max_segment_size_bytes) ⊎ (w'.cs_size ≡ 8 + length b)
  unfolding log_element
  log_element-size files b w w' h small =
      let (v, r, e) =
        called_then (rotate_log_if_needed files ((8 + length b) % 2 ^ 32) w)
          (write_entry codec files b) w' h in
      let s = rotate_log_if_needed-size files (8 + length b) w v r small in
      let k : v.cs_size + (8 + length b) < 2 ^ 32 = elim s [
        | inl p ↦ omega (arith, p.0)
        | inr p ↦ omega arith
      ] in
      let z = write_entry-size files b v w' e k in
      elim s [ inl p ↦ inl (omega (arith, p.1, z.0, z.1)) | inr p ↦ inr (omega (arith, z.0)) ]
