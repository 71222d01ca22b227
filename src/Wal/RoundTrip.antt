-- ===== src/Wal/RoundTrip.antt =====
-- ReplayCommand of internal/wal/wal_forge.go against LogCommand.
use dice_db_distributed_syst.Prelude.{
  ℕ, zero, suc, ◌+◌, ◌%◌, ◌^◌, ◌≤◌, ◌<◌, ◌≡◌, refl, sym, ap, ◌∙◌, inl, inr, Bool, true, false,
  Option, none, some, List, [], ◌∷◌, ◌++◌, arith, ◌==◌, if◌then◌else◌, ==_iff, if_both, Bool-cases,
  length, All, Str, nat_eq, str_eq,
}
use mathlib.Core.Path.{subst, fun_ext}
use mathlib.Core.List.{append-nil}
use dice_db_distributed_syst.Wal.{
  Codec, Element, Files, WalForge, Called, done, failed, panics, init_wal, entry, log_command, stop,
  sync, write_out, rotate_log,
}
use dice_db_distributed_syst.Wal.Replay.{
  Replayed, complete, stopped, replaying, out_of_range, and_then, replay_element, replay_segment,
  replay_command,
}
use dice_db_distributed_syst.Wal.Laws.{
  CodecLaws, Fits, entries, deliver, replay_segment-entries, and_then_assoc, deliver-append,
  entries-append, replay_command-append,
}
use dice_db_distributed_syst.Wal.Contents.{
  content, take-all, Appends, called_then, log_command-done, log_element-done,
}
use dice_db_distributed_syst.Wal.Quiet.{IsQuiet, rotate_log-IsQuiet, sync-IsQuiet}

-- The segments up to the n-th, in ascending order.
abbrev pub first_segments : ℕ → (ℕ → Str) → List Str
first_segments zero f = f 0 ∷ []
first_segments (suc n) f = first_segments n f ++ f (suc n) ∷ []

-- What the segments hold of the commands that were logged: the elements of each.
pub record Holds {C : Type 0} (codec : Codec C) (w : WalForge) (log : ℕ → List Str) : Type 0 where
  pub bytes : (i : ℕ) → content w i ≡ entries codec (log i)
  pub fits : (i : ℕ) → All Fits (log i)
  pub fresh : (i : ℕ) → w.cs_idx < i → log i ≡ []

-- What happens to a log while it runs: a command is logged, or a ticker rotates or syncs it.
pub data Step (C : Type 0) : Type 0 where
  logs : Files → ℕ → C → Step C
  rotates syncs : Files → Step C

module _ {C T : Type 0} (cb : C → T → Option T) where
  abbrev pub call : C → T → Replayed T
  call c t = elim (cb c t) [ none ↦ stopped replaying t | some t' ↦ complete t' ]

  abbrev pub call_all : List C → T → Replayed T
  call_all [] t = complete t
  call_all (c ∷ cs) t = and_then (call c t) (call_all cs)

module _ {C : Type 0} (codec : Codec C) where
  abbrev pub take_step : Step C → WalForge → Called
  take_step (logs files now c) w = log_command codec files now c w
  take_step (rotates files) w = rotate_log files w
  take_step (syncs files) w = sync files w

  abbrev pub log_all : List (Step C) → WalForge → Called
  log_all [] w = done w
  log_all (x ∷ l) w = elim (take_step x w) [
    | done w' ↦ log_all l w'
    | failed w' ↦ failed w'
    | panics ↦ panics
  ]

abbrev pub commands : {C : Type 0} → List (Step C) → List C
commands [] = []
commands (logs _ _ c ∷ l) = c ∷ commands l
commands (rotates _ ∷ l) = commands l
commands (syncs _ ∷ l) = commands l

module _ {C T : Type 0} (codec : Codec C) (laws : CodecLaws codec) (cb : C → T → Option T) where
  abbrev upto : ℕ → (ℕ → List Str) → T → Replayed T
  upto zero log t = deliver codec cb (log 0) t
  upto (suc n) log t = and_then (upto n log t) (deliver codec cb (log (suc n)))

  and_then_complete : (r : Replayed T) → and_then r complete ≡ r
  and_then_complete (complete t) = refl
  and_then_complete (stopped e t) = refl
  and_then_complete (out_of_range t) = refl

  replay_one :
      (l : Str) (bs : List Str) (t : T)
      → l ≡ entries codec bs
      → All Fits bs
      → replay_command codec cb (l ∷ []) t ≡ deliver codec cb bs t
  unfolding replay_command
  replay_one l bs t h g =
      and_then_complete (replay_segment codec cb l t)
      ∙ ap (λ k. replay_segment codec cb k t) h
      ∙ replay_segment-entries codec laws cb bs t g

  replay_first :
      (n : ℕ) (f : ℕ → Str) (log : ℕ → List Str) (t : T)
      → ((i : ℕ) → f i ≡ entries codec (log i))
      → ((i : ℕ) → All Fits (log i))
      → replay_command codec cb (first_segments n f) t ≡ upto n log t
  unfolding replay_command
  replay_first zero f log t h g = replay_one (f 0) (log 0) t (h 0) (g 0)
  replay_first (suc n) f log t h g =
      replay_command-append codec laws cb (first_segments n f) (f (suc n) ∷ []) t
      ∙ ap (λ r. and_then r (replay_command codec cb (f (suc n) ∷ []))) (replay_first n f log t h g)
      ∙ ap (and_then (upto n log t))
          (fun_ext (λ t'. replay_one (f (suc n)) (log (suc n)) t' (h (suc n)) (g (suc n))))

  upto_ext :
      (n : ℕ) (f g : ℕ → List Str) (t : T) → ((i : ℕ) → i ≤ n → f i ≡ g i) → upto n f t ≡ upto n g t
  upto_ext zero f g t h = ap (λ l. deliver codec cb l t) (h 0 (omega arith))
  upto_ext (suc n) f g t h = rw (h (suc n) (omega arith)) (
      ap (λ r. and_then r (deliver codec cb (g (suc n))))
        (upto_ext n f g t (λ i lt. h i (omega arith))))

  -- The elements with one more at the end of segment k.
  abbrev more : ℕ → Str → (ℕ → List Str) → ℕ → List Str
  more k b log i = if i == k then log i ++ b ∷ [] else log i

  deliver-one : (b : Str) → deliver codec cb (b ∷ []) ≡ replay_element codec cb b
  deliver-one b = fun_ext (λ t. and_then_complete (replay_element codec cb b t))

  upto-more :
      (n : ℕ) (b : Str) (log : ℕ → List Str) (t : T)
      → upto n (more n b log) t ≡ and_then (upto n log t) (replay_element codec cb b)
  upto-more zero b log t =
      deliver-append codec laws cb (log 0) (b ∷ []) t
      ∙ ap (and_then (deliver codec cb (log 0) t)) (deliver-one b)
  upto-more (suc n) b log t =
      let before : upto n (more (suc n) b log) t ≡ upto n log t =
        upto_ext n (more (suc n) b log) log t (λ i lt. ground arith) in
      let here : (suc n == suc n) ≡ true = ground arith in
      rw (before, here)
        (ap (and_then (upto n log t)) (
            fun_ext (λ t'.
              deliver-append codec laws cb (log (suc n)) (b ∷ []) t'
              ∙ ap (and_then (deliver codec cb (log (suc n)) t')) (deliver-one b)))
          ∙ sym (
              and_then_assoc codec laws cb (upto n log t) (deliver codec cb (log (suc n)))
                (replay_element codec cb b)))

  entries-if :
      (x : Bool) (b : Str) (bs : List Str)
      → (if x then entries codec bs ++ entry codec b else entries codec bs)
        ≡ entries codec (if x then bs ++ b ∷ [] else bs)
  unfolding entries
  entries-if true b bs =
      ap (λ l. entries codec bs ++ l) (sym (append-nil (entry codec b)))
      ∙ sym (entries-append codec bs (b ∷ []))
  entries-if false b bs = refl

  All-Fits-append : (bs : List Str) (b : Str) → All Fits bs → Fits b → All Fits (bs ++ b ∷ [])
  All-Fits-append [] b h f = (f, tt)
  All-Fits-append (c ∷ bs) b h f = (h.0, All-Fits-append bs b h.1 f)

  Appends-Holds :
      (w w' : WalForge) (b : Str) (log : ℕ → List Str)
      → Fits b
      → Appends (entry codec b) w w'
      → Holds codec w log
      → Holds codec w' (more w'.cs_idx b log)
  Appends-Holds w w' b log f a h = record {
    bytes = λ i.
        a.bytes i
        ∙ ap (λ k. if i == w'.cs_idx then k ++ entry codec b else k) (h.bytes i)
        ∙ entries-if (i == w'.cs_idx) b (log i);
    fits = λ i.
        if_both (All Fits) (i == w'.cs_idx) (All-Fits-append (log i) b (h.fits i) f) (h.fits i);
    fresh = λ i lt.
        let other : (i == w'.cs_idx) ≡ false = ground arith in
        rw other (h.fresh i (elim a.idx [ inl e ↦ omega arith | inr e ↦ omega arith ]));
  }

  upto-Appends :
      (w w' : WalForge) (b : Str) (log : ℕ → List Str) (t : T)
      → Appends (entry codec b) w w'
      → Holds codec w log
      → upto w'.cs_idx (more w'.cs_idx b log) t
        ≡ and_then (upto w.cs_idx log t) (replay_element codec cb b)
  upto-Appends w w' b log t a h = upto-more w'.cs_idx b log t ∙ elim a.idx [
    | inl e ↦ rw e refl
    | inr e ↦
        rw (e, h.fresh (suc w.cs_idx) (omega arith))
          (ap (λ r. and_then r (replay_element codec cb b))
            (and_then_complete (upto w.cs_idx log t)))
  ]

  replay_element-call :
      (c : C) (payload b : Str) (el : Element) (t : T)
      → codec.marshal c ≡ some payload
      → codec.marshal_element el ≡ some b
      → el.payload ≡ payload
      → replay_element codec cb b t ≡ call_all cb (c ∷ []) t
  unfolding replay_element
  replay_element-call c payload b el t m g s =
      rw (replay_element, laws.element_back el b g, s, laws.back c payload m)
        (sym (and_then_complete (call cb c t)))

  -- What a log holds after it has come from w by the commands cs.
  abbrev Grows : WalForge → (ℕ → List Str) → WalForge → List C → Type 0
  Grows w log w' cs =
      (log' : ℕ → List Str) × Holds codec w' log'
      × ((t : T) → upto w'.cs_idx log' t ≡ and_then (upto w.cs_idx log t) (call_all cb cs))

  log_command-Grows :
      (files : Files) (now : ℕ) (c : C) (w w' : WalForge) (log : ℕ → List Str)
      → Holds codec w log
      → log_command codec files now c w ≡ done w'
      → Grows w log w' (c ∷ [])
  log_command-Grows files now c w w' log h e =
      let (payload, b, m, g, k) = log_command-done codec files now c w w' e in
      let (fits, a) =
        log_element-done codec files b (record w { lsn = (w.lsn + 1) % 2 ^ 64 }) w' k in
      let a' : Appends (entry codec b) w w' = record { idx = a.idx; bytes = a.bytes } in
      let one : (t : T) → replay_element codec cb b t ≡ call_all cb (c ∷ []) t = λ t.
        replay_element-call c payload b
          (record { lsn = (w.lsn + 1) % 2 ^ 64; timestamp = now; payload = payload }) t m g refl in
      (
        more w'.cs_idx b log,
        Appends-Holds w w' b log fits a' h,
        λ t. upto-Appends w w' b log t a' h ∙ ap (and_then (upto w.cs_idx log t)) (fun_ext one),
      )

  Holds-quiet :
      (w v : WalForge) (log : ℕ → List Str) → IsQuiet w v → Holds codec w log → Holds codec v log
  Holds-quiet w v log q h = record {
    bytes = λ i. q.bytes i ∙ h.bytes i;
    fits = h.fits;
    fresh = λ i lt. h.fresh i (elim q.idx [ inl e ↦ omega arith | inr e ↦ omega arith ]);
  }

  Grows-quiet :
      (w v w' : WalForge) (log : ℕ → List Str) (cs : List C)
      → IsQuiet w v
      → Holds codec w log
      → Grows v log w' cs
      → Grows w log w' cs
  Grows-quiet w v w' log cs q h (log', h', s) =
      let same : (t : T) → upto v.cs_idx log t ≡ upto w.cs_idx log t = λ t. elim q.idx [
        | inl e ↦ rw e refl
        | inr e ↦
            rw (e, h.fresh (suc w.cs_idx) (omega arith)) (and_then_complete (upto w.cs_idx log t))
      ] in
      (log', h', λ t. s t ∙ ap (λ r. and_then r (call_all cb cs)) (same t))

  log_all-Grows :
      (l : List (Step C)) (w w' : WalForge) (log : ℕ → List Str)
      → Holds codec w log
      → log_all codec l w ≡ done w'
      → Grows w log w' (commands l)
  log_all-Grows [] w w' log h e =
      let same : w ≡ w' = ground arith in
      subst (λ v. Grows w log v []) same
        (log, h, λ t. sym (and_then_complete (upto w.cs_idx log t)))
  log_all-Grows (rotates files ∷ l) w w' log h e =
      let (v, r, k) = called_then (rotate_log files w) (log_all codec l) w' e in
      let q = rotate_log-IsQuiet files w v r in
      Grows-quiet w v w' log (commands l) q h (log_all-Grows l v w' log (Holds-quiet w v log q h) k)
  log_all-Grows (syncs files ∷ l) w w' log h e =
      let (v, r, k) = called_then (sync files w) (log_all codec l) w' e in
      let q = sync-IsQuiet files w v r in
      Grows-quiet w v w' log (commands l) q h (log_all-Grows l v w' log (Holds-quiet w v log q h) k)
  log_all-Grows (logs files now c ∷ l) w w' log h e =
      let (v, r, k) = called_then (log_command codec files now c w) (log_all codec l) w' e in
      let (log1, h1, s1) = log_command-Grows files now c w v log h r in
      let (log2, h2, s2) = log_all-Grows l v w' log1 h1 k in
      (
        log2,
        h2,
        λ t.
            s2 t
            ∙ ap (λ q. and_then q (call_all cb (commands l))) (s1 t)
            ∙ and_then_assoc codec laws cb (upto w.cs_idx log t) (call_all cb (c ∷ []))
                (call_all cb (commands l))
            ∙ ap (and_then (upto w.cs_idx log t)) (
                fun_ext (λ t'.
                  ap (λ q. and_then q (call_all cb (commands l)))
                    (and_then_complete (call cb c t')))),
      )

  stop-content :
      (files : Files) (w : WalForge) (i : ℕ)
      → files.flushes ≡ true
      → (stop files w).disk i ≡ content w i
  unfolding stop sync write_out
  stop-content files w i h =
      let e : stop files w ≡ write_out (length w.pending) w = ground arith in
      ap (λ v. v.disk i) e ∙ (elim (Bool-cases (i == w.cs_idx)) [
        | inl g ↦
            let same : i ≡ w.cs_idx = (==_iff _ _).0 g in rw (g, same, take-all w.pending) refl
        | inr g ↦ rw g refl
      ])

  -- The commands that a log on an empty directory has taken, with the rotations for size and any
  -- syncs and rotations of the tickers between them, none of which fails, are passed to the
  -- callback in their order once the log is stopped by a flush that succeeds and its segments are
  -- read in ascending order, and the replay ends as the callback ends on them; what is marshalled
  -- is assumed to come back, and a checksum to have 32 bits.
  pub replay_command-log_all :
      (l : List (Step C)) (max_mb : ℕ) (w : WalForge) (files : Files) (t : T)
      → log_all codec l (init_wal max_mb (λ _. [])) ≡ done w
      → files.flushes ≡ true
      → replay_command codec cb (first_segments w.cs_idx (stop files w).disk) t
        ≡ call_all cb (commands l) t
  unfolding init_wal entries
  replay_command-log_all l max_mb w files t e h =
      let empty : Holds codec (init_wal max_mb (λ _. [])) (λ _. []) = record {
        bytes = λ i. if_both (λ k. k ≡ []) (i == 0) refl refl;
        fits = λ i. tt;
        fresh = λ i lt. refl;
      } in
      let (log, held, s) = log_all-Grows l (init_wal max_mb (λ _. [])) w (λ _. []) empty e in
      replay_first w.cs_idx (stop files w).disk log t (λ i. stop-content files w i h ∙ held.bytes i)
        held.fits
      ∙ s t
