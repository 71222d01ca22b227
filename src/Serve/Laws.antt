-- ===== src/Serve/Laws.antt =====
-- What a round of IOThread.Start (internal/server/ironhawk/iothread.go) does, and the bounds that
-- IOThreadManager keeps.
use dice_db_distributed_syst.Prelude.{
  ℕ, ◌^◌, ◌≤◌, ◌<◌, ◌≡◌, refl, ap, ◌∙◌, inl, inr, Bool, true, false, not, ◌&&◌, List, [], ◌∷◌, ◌++◌,
  arith, leb, if◌then◌else◌, Bool-cases, Option-cases, length, Str, codes, str_beq, str_beq_iff,
  nat_eq, str_eq,
}
use dice_db_distributed_syst.Prelude.{
  ℕ, ◌^◌, ◌≤◌, ◌<◌, ◌≡◌, refl, ap, ◌∙◌, inl, inr, Bool, true, false, not, ◌&&◌, List, [], ◌∷◌, ◌++◌,
  arith, leb, if◌then◌else◌, Bool-cases, Option-cases, length, Str, codes, str_beq, str_beq_iff,
  nat_eq, str_eq,
}
use mathlib.Core.Path.{subst}
use dice_db_distributed_syst.Table.{load, Distinct}
use dice_db_distributed_syst.Table.Laws.{
  length-upsert, length-remove, Distinct-upsert, Distinct-remove,
}
use dice_db_distributed_syst.Wire.{Result, Run, panic, ◌>>=◌}
use dice_db_distributed_syst.Cmd.Env.{Env}
use dice_db_distributed_syst.Cmd.Session.{Cmd}
use dice_db_distributed_syst.Watch.{IoThread, has_suffix}
use dice_db_distributed_syst.Serve.{
  Event, send, log, unwatch, is_watchable, watchable_names, mark_watchable, finish, end_round,
  handshaken, respond, IoThreadManager, register_io_thread, unregister_io_thread, normal_result,
}

abbrev pub is_answered : List Event → Bool
is_answered [] = false
is_answered (send _ ∷ l) = true
is_answered (_ ∷ l) = is_answered l

abbrev pub is_unwatching : List Event → Bool
is_unwatching [] = false
is_unwatching (unwatch _ ∷ l) = true
is_unwatching (_ ∷ l) = is_unwatching l

abbrev pub watch_suffix : Str
watch_suffix = codes "WATCH"

has_suffix-watch : (s : Str) → has_suffix watch_suffix (s ++ codes ".WATCH") ≡ true
unfolding has_suffix str_beq
has_suffix-watch [] = refl
has_suffix-watch (c ∷ s) = ground (arith, has_suffix-watch s)

-- What ends in UNWATCH ends in WATCH.
has_suffix-unwatch :
    (s : Str) → has_suffix (codes "UNWATCH") s ≡ true → has_suffix watch_suffix s ≡ true
unfolding has_suffix
has_suffix-unwatch [] h = unfold str_beq in ground arith
has_suffix-unwatch (c ∷ s) h = elim (Bool-cases (str_beq (codes "UNWATCH") (c ∷ s))) [
  | inl e ↦
      let q : codes "UNWATCH" ≡ c ∷ s = (str_beq_iff (codes "UNWATCH") (c ∷ s)).0 e in
      subst (λ x. has_suffix watch_suffix x ≡ true) q (unfold has_suffix str_beq in refl)
  | inr e ↦ ground (arith, has_suffix-unwatch s)
]

finish-events :
    (c : Cmd) (t : IoThread) (rs : Result)
    → (is_answered (finish c t rs) ≡ not (has_suffix watch_suffix c.name))
      × (is_unwatching (finish c t rs) ≡ false)
unfolding finish
finish-events c t rs = elim (Bool-cases (has_suffix watch_suffix c.name)) [
  | inl e ↦ rw e (refl, refl)
  | inr e ↦
      let n : has_suffix (codes "UNWATCH") c.name ≡ false =
        ground (arith, has_suffix-unwatch c.name) in
      rw (e, n) (refl, refl)
]

-- A round that ends, with an answer or without, and without the end of a watch.
abbrev pub Ends : Bool → Run (IoThread × List Event) → Type 0
Ends b o =
    (t : IoThread) × (l : List Event) × (o ≡ Run.ok (t, l))
    × (is_answered l ≡ b)
    × (is_unwatching l ≡ false)

logged-events :
    (b : Bool) (c : Cmd) (l : List Event)
    → (is_answered ((if b then log c ∷ [] else []) ++ l) ≡ is_answered l)
      × (is_unwatching ((if b then log c ∷ [] else []) ++ l) ≡ is_unwatching l)
logged-events true c l = (refl, refl)
logged-events false c l = (refl, refl)

handshaken-ok :
    (c : Cmd) (t : IoThread)
    → (str_beq c.name (codes "HANDSHAKE") ≡ true → length c.args ≡ 2)
    → (t' : IoThread) × (handshaken c t ≡ Run.ok t')
handshaken-ok c t h = elim (Bool-cases (str_beq c.name (codes "HANDSHAKE"))) [
  | inl e ↦ rw e (with_args c.args (h e))
  | inr e ↦ rw e (t, refl)
]
  where
    with_args :
        (l : List Str)
        → length l ≡ 2
        → (t' : IoThread) × (elim l [
          | [] ↦ panic
          | id ∷ rest ↦ elim rest [
            | [] ↦ panic
            | mode ∷ _ ↦ Run.ok (record { client_id = id; mode = mode })
          ]
        ]
            ≡ Run.ok t')
    with_args [] g = absurd (omega arith)
    with_args (a ∷ []) g = absurd (omega arith)
    with_args (a ∷ b ∷ l) g = (_, refl)

end_round-Ends :
    (c : Cmd) (t : IoThread) (rs : Result) (b : Bool) (d : Cmd)
    → (str_beq c.name (codes "HANDSHAKE") ≡ true → length c.args ≡ 2)
    → Ends (not (has_suffix watch_suffix c.name)) (end_round c t rs (if b then log d ∷ [] else []))
unfolding end_round
end_round-Ends c t rs b d h =
    let (t', e) = handshaken-ok c t h in
    let l = finish c t' rs in
    let (p, q) = finish-events c t' rs in
    let (p', q') = logged-events b d l in
    (
      t',
      (if b then log d ∷ [] else []) ++ l,
      ap (λ o. o >>= λ u. Run.ok (u, (if b then log d ∷ [] else []) ++ finish c u rs)) e,
      p' ∙ p,
      q' ∙ q,
    )

renamed_no_handshake : (s : Str) → str_beq (s ++ codes ".WATCH") (codes "HANDSHAKE") ≡ false
renamed_no_handshake s = elim (Bool-cases (str_beq (s ++ codes ".WATCH") (codes "HANDSHAKE"))) [
  | inl e ↦
      let q = (str_beq_iff (s ++ codes ".WATCH") (codes "HANDSHAKE")).0 e in
      let w : has_suffix watch_suffix (codes "HANDSHAKE") ≡ true =
        subst (λ x. has_suffix watch_suffix x ≡ true) q (has_suffix-watch s) in
      let n : has_suffix watch_suffix (codes "HANDSHAKE") ≡ false =
        unfold has_suffix str_beq in refl in
      cc
  | inr e ↦ e
]

marked-Ends :
    (env : Env) (w b : Bool) (c d : Cmd) (t : IoThread) (rs : Result)
    → (str_beq c.name (codes "HANDSHAKE") ≡ true → length c.args ≡ 2)
    → let m = mark_watchable env w c rs in
      Ends
        (not w && not (has_suffix watch_suffix c.name))
        (end_round m.0 t m.1 (if b then log d ∷ [] else []))
unfolding mark_watchable
marked-Ends env false b c d t rs h = end_round-Ends c t rs b d h
marked-Ends env true b c d t rs h =
    let (c', rs') = mark_watchable env true c rs in
    let r =
      end_round-Ends c' t rs' b d (λ e. absurd (ground (arith, renamed_no_handshake c.name))) in
    let s : has_suffix watch_suffix c'.name ≡ true = has_suffix-watch c.name in
    (r.0, r.1, r.2, r.3 ∙ ap not s, r.4)

-- A command that succeeds is always served, its round sends the answer itself exactly if the
-- command is not watchable and its name does not end in WATCH, and no round ends a watch;
-- HANDSHAKE is assumed to come with two arguments.
pub respond-answers :
    (env : Env) (logs : Bool) (c : Cmd) (t : IoThread) (rs : Result)
    → (str_beq c.name (codes "HANDSHAKE") ≡ true → length c.args ≡ 2)
    → Ends
        (not (is_watchable c.name watchable_names) && not (has_suffix watch_suffix c.name))
        (respond env logs c t rs)
unfolding respond
respond-answers env logs c t rs h =
    marked-Ends env (is_watchable c.name watchable_names) (logs && not c.is_replay) c c _
      (normal_result rs) h

-- The counter of the threads covers the connected clients, within the limit.
pub record IsBounded (max_clients : ℕ) (m : IoThreadManager) : Type 0 where
  pub distinct : Distinct m.connected_clients
  pub covers : length m.connected_clients ≤ m.num_io_threads
  pub limited : m.num_io_threads ≤ max_clients

-- A registration, accepted or refused, keeps the thread count between the number of connected
-- clients and the limit, below 2^32.
register_io_thread-IsBounded :
    (max_clients : ℕ) (t : IoThread) (m : IoThreadManager)
    → max_clients < 2 ^ 32
    → IsBounded max_clients m
    → IsBounded max_clients (register_io_thread max_clients t m).1
unfolding register_io_thread
register_io_thread-IsBounded max_clients t m h v =
    elim (Bool-cases (leb max_clients m.num_io_threads)) [
      | inl e ↦ rw e v
      | inr e ↦ rw e (record {
        distinct = Distinct-upsert t.client_id t m.connected_clients v.distinct;
        covers = ground (arith, length-upsert t.client_id t m.connected_clients, v.covers);
        limited = ground (arith, v.limited);
      })
    ]

-- The end of a thread keeps the thread count between the number of connected clients and the
-- limit; the counter never goes below zero.
unregister_io_thread-IsBounded :
    (max_clients : ℕ) (id : Str) (m : IoThreadManager)
    → max_clients < 2 ^ 32
    → IsBounded max_clients m
    → IsBounded max_clients (unregister_io_thread id m).1
unfolding unregister_io_thread
unregister_io_thread-IsBounded max_clients id m h v =
    elim (Option-cases (load id m.connected_clients)) [
      | inl e ↦ rw (e, unregister_io_thread) v
      | inr (t, e) ↦
          let g = length-remove id m.connected_clients v.distinct in
          rw (e, unregister_io_thread)
            (record {
              distinct = Distinct-remove id m.connected_clients v.distinct;
              covers = ground (arith, g, v.covers, v.limited);
              limited = ground (arith, g, v.covers, v.limited);
            })
    ]
