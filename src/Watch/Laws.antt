-- ===== src/Watch/Laws.antt =====
-- Laws of the watch manager (internal/server/ironhawk/watch_manager.go): who watches what after each
-- of its operations, and who is told.
use dice_db_distributed_syst.Prelude.{
  ℕ, ◌≡◌, refl, inl, inr, Bool, true, false, not, ◌&&◌, ◌||◌, none, some, List, [], ◌∷◌, arith,
  ◌==◌, if◌then◌else◌, ==_iff, Bool-cases, Option-cases, Str, str_beq, str_beq_iff, nat_eq, str_eq,
}
use dice_db_distributed_syst.Table.{Distinct, load, upsert, remove}
use dice_db_distributed_syst.Table.Laws.{load-upsert, load-remove}
use dice_db_distributed_syst.Cmd.Session.{Cmd, key_of}
use dice_db_distributed_syst.Watch.{
  IoThread, WatchManager, inner, handle_watch, handle_unwatch, leave, unwatched, is_empty,
  cleanup_loop, cleanup_thread_watch_subscriptions, recipients,
}

-- Whether a client has subscribed to a fingerprint.
abbrev pub subscribed : ℕ → Str → WatchManager → Bool
subscribed fp client w = elim (load client (inner (load fp w.fp_clients))) [
  | none ↦ false
  | some _ ↦ true
]

-- Whether a fingerprint stands among those of a key.
abbrev pub listed : Str → ℕ → WatchManager → Bool
listed key fp w = elim (load fp (inner (load key w.key_fps))) [ none ↦ false | some _ ↦ true ]

-- Every fingerprint that a client watches has a command, and stands among those of the command's key.
pub record IsWatchable (w : WatchManager) : Type 0 where
  pub command :
      (fp : ℕ) (client : Str)
      → subscribed fp client w ≡ true
      → (c : Cmd) × (load fp w.fp_cmds ≡ some c)
  pub keyed : (fp : ℕ) (c : Cmd) → load fp w.fp_cmds ≡ some c → listed (key_of c.args) fp w ≡ true

-- HandleWatch subscribes its client to its fingerprint and changes no other subscription.
pub handle_watch-subscribed :
    (fp fp' : ℕ) (c : Cmd) (t : IoThread) (client : Str) (w : WatchManager)
    → subscribed fp' client (handle_watch fp c t w)
      ≡ (fp == fp' && str_beq t.client_id client || subscribed fp' client w)
unfolding handle_watch
handle_watch-subscribed fp fp' c t client w =
    let clients = inner (load fp w.fp_clients) in
    ground (
      arith,
      load-upsert fp fp' (upsert t.client_id true clients) w.fp_clients,
      ==_iff fp fp',
      load-upsert t.client_id client true clients,
    )

handle_watch-listed :
    (fp fp' : ℕ) (c : Cmd) (t : IoThread) (key : Str) (w : WatchManager)
    → listed key fp' (handle_watch fp c t w)
      ≡ (str_beq (key_of c.args) key && (fp == fp') || listed key fp' w)
unfolding handle_watch
handle_watch-listed fp fp' c t key w =
    let k = key_of c.args in
    let fps = inner (load k w.key_fps) in
    ground (
      arith,
      load-upsert k key (upsert fp true fps) w.key_fps,
      str_beq_iff k key,
      load-upsert fp fp' true fps,
    )

-- HandleWatch keeps every watched fingerprint with a command that is listed under its key.
pub handle_watch-IsWatchable :
    (fp : ℕ) (c : Cmd) (t : IoThread) (w : WatchManager)
    → IsWatchable w
    → IsWatchable (handle_watch fp c t w)
unfolding handle_watch
handle_watch-IsWatchable fp c t w v = record {
  command = λ fp' client h. elim (Bool-cases (fp == fp')) [
    | inl e ↦ (c, ground (arith, load-upsert fp fp' c w.fp_cmds))
    | inr e ↦
        let (d, g) =
          v.command fp' client (ground (arith, handle_watch-subscribed fp fp' c t client w)) in
        (d, ground (arith, load-upsert fp fp' c w.fp_cmds))
  ];
  keyed = λ fp' d h. ground (
    arith,
    load-upsert fp fp' c w.fp_cmds,
    handle_watch-listed fp fp' c t (key_of d.args) w,
    v.keyed fp' d,
    ==_iff fp fp',
    str_beq_iff (key_of c.args) (key_of d.args),
    str_beq_iff (key_of d.args) (key_of d.args),
  );
}

load-leave :
    (fp fp' : ℕ) (client : Str) (l : List (ℕ × List (Str × Bool)))
    → inner (load fp' (leave fp client l))
      ≡ (if fp == fp' then remove client (inner (load fp l)) else inner (load fp' l))
unfolding leave remove
load-leave fp fp' client l = elim (Option-cases (load fp l)) [
  | inl e ↦ rw (e, leave) (ground (arith, ==_iff fp fp'))
  | inr (clients, e) ↦ rw (e, leave) (ground (arith, load-upsert fp fp' (remove client clients) l))
]

-- What is_empty says of a set.
load-is_empty : (k : Str) (l : List (Str × Bool)) → is_empty l ≡ true → load k l ≡ none
unfolding load
load-is_empty k [] h = refl
load-is_empty k (x ∷ l) h = cc

module _ (c : Cmd) (t : IoThread) (fp : ℕ) (w : WatchManager) (u : unwatched c.args ≡ some fp) where
  load-unwatched :
      (fp' : ℕ) (client : Str)
      → load client (inner (load fp' (handle_unwatch c t w).fp_clients)) ≡ (
          if fp == fp' && str_beq t.client_id client
          then none
          else load client (inner (load fp' w.fp_clients)))
  unfolding handle_unwatch
  load-unwatched fp' client =
      let l = leave fp t.client_id w.fp_clients in
      elim (Bool-cases (is_empty (inner (load fp l)))) [
        | inl e ↦
            rw (u, e, handle_unwatch)
              (ground (
                arith,
                load-remove fp fp' l,
                load-leave fp fp' t.client_id w.fp_clients,
                ==_iff fp fp',
                load-leave fp fp t.client_id w.fp_clients,
                ==_iff fp fp,
                load-remove t.client_id client (inner (load fp w.fp_clients)),
                load-is_empty client (inner (load fp l)),
              ))
        | inr e ↦
            rw (u, e, handle_unwatch)
              (ground (
                arith,
                load-leave fp fp' t.client_id w.fp_clients,
                ==_iff fp fp',
                load-remove t.client_id client (inner (load fp w.fp_clients)),
              ))
      ]

-- HandleUnwatch on arguments that it reads as a fingerprint ends the subscription of the client
-- of its thread to that fingerprint, on other arguments it does nothing, and no other
-- subscription changes.
pub handle_unwatch-subscribed :
    (c : Cmd) (t : IoThread) (fp : ℕ) (client : Str) (w : WatchManager)
    → subscribed fp client (handle_unwatch c t w) ≡ elim (unwatched c.args) [
      | none ↦ subscribed fp client w
      | some n ↦ not (n == fp && str_beq t.client_id client) && subscribed fp client w
    ]
unfolding handle_unwatch
handle_unwatch-subscribed c t fp client w = elim (Option-cases (unwatched c.args)) [
  | inl e ↦ rw (e, handle_unwatch)
  | inr (n, e) ↦ ground (arith, load-unwatched c t n w e fp client)
]

-- After UNWATCH every watched fingerprint still has a command, listed under its key.
pub handle_unwatch-IsWatchable :
    (c : Cmd) (t : IoThread) (w : WatchManager) → IsWatchable w → IsWatchable (handle_unwatch c t w)
unfolding handle_unwatch
handle_unwatch-IsWatchable c t w v = elim (Option-cases (unwatched c.args)) [
  | inl e ↦ rw (e, handle_unwatch) v
  | inr (n, e) ↦
      let l = leave n t.client_id w.fp_clients in
      elim (Bool-cases (is_empty (inner (load n l)))) [
        | inl y ↦
            rw (e, y, handle_unwatch)
              (record {
                command = λ fp client h.
                    let (d, g) = v.command fp client (
                      ground (
                        arith,
                        load-remove n fp l,
                        load-leave n fp t.client_id w.fp_clients,
                        ==_iff n fp,
                        load-is_empty client [] refl,
                      )) in
                    (
                      d,
                      ground (
                        arith,
                        load-remove n fp w.fp_cmds,
                        load-remove n fp l,
                        load-is_empty client [] refl,
                      ),
                    );
                keyed = λ fp d h. v.keyed fp d (ground (arith, load-remove n fp w.fp_cmds));
              })
        | inr y ↦
            rw (e, y, handle_unwatch)
              (record {
                command = λ fp client h. v.command fp client (
                    ground (
                      arith,
                      load-leave n fp t.client_id w.fp_clients,
                      ==_iff n fp,
                      load-remove t.client_id client (inner (load n w.fp_clients)),
                    ));
                keyed = v.keyed;
              })
      ]
]

load-cleanup_loop :
    (self : Str) (fp : ℕ) (client : Str) (l : List (ℕ × List (Str × Bool)))
    → Distinct l
    → load client (inner (load fp (cleanup_loop self l)))
      ≡ (if str_beq self client then none else load client (inner (load fp l)))
unfolding cleanup_loop load
load-cleanup_loop self fp client [] d = ground arith
load-cleanup_loop self fp client ((n, clients) ∷ l) d = ground (
  arith,
  load-cleanup_loop self fp client l d.1,
  load-remove self client clients,
  ==_iff n fp,
  load-is_empty client (remove self clients),
  load-is_empty client [] refl,
)

pub load-cleanup_loop-none :
    (self : Str) (fp : ℕ) (l : List (ℕ × List (Str × Bool)))
    → load fp l ≡ none
    → load fp (cleanup_loop self l) ≡ none
unfolding cleanup_loop load
load-cleanup_loop-none self fp [] h = refl
load-cleanup_loop-none self fp ((n, clients) ∷ l) h =
    ground (arith, load-cleanup_loop-none self fp l, ==_iff n fp)

-- Cleaning up after a thread ends every subscription of its client and none of another client,
-- where no fingerprint stands twice.
cleanup_thread_watch_subscriptions-subscribed :
    (t : IoThread) (fp : ℕ) (client : Str) (w : WatchManager)
    → Distinct w.fp_clients
    → subscribed fp client (cleanup_thread_watch_subscriptions t w)
      ≡ (not (str_beq t.client_id client) && subscribed fp client w)
unfolding cleanup_thread_watch_subscriptions
cleanup_thread_watch_subscriptions-subscribed t fp client w d =
    ground (arith, load-cleanup_loop t.client_id fp client w.fp_clients d)

pub cleanup_thread_watch_subscriptions-IsWatchable :
    (t : IoThread) (w : WatchManager)
    → Distinct w.fp_clients
    → IsWatchable w
    → IsWatchable (cleanup_thread_watch_subscriptions t w)
unfolding cleanup_thread_watch_subscriptions
cleanup_thread_watch_subscriptions-IsWatchable t w d v = record {
  command = λ fp client h.
      v.command fp client (ground (arith, load-cleanup_loop t.client_id fp client w.fp_clients d));
  keyed = v.keyed;
}

abbrev pub is_member : Str → List Str → Bool
is_member k [] = false
is_member k (j ∷ l) = str_beq j k || is_member k l

-- The recipients are the clients of the list that have a thread; of those, a quiet command reaches
-- its own client only.
pub recipients_exact :
    (quiet : Bool) (self client : Str) (threads : List (Str × IoThread)) (l : List (Str × Bool))
    → is_member client (recipients quiet self threads l) ≡ elim (load client l) [
      | none ↦ false
      | some _ ↦ elim (load client threads) [
        | none ↦ false
        | some _ ↦ not quiet || str_beq self client
      ]
    ]
unfolding recipients load
recipients_exact quiet self client threads [] = refl
recipients_exact quiet self client threads ((c, b) ∷ l) = elim (Option-cases (load c threads)) [
  | inl e ↦ ground (arith, recipients_exact quiet self client threads l, str_beq_iff c client)
  | inr (t, e) ↦ ground (arith, recipients_exact quiet self client threads l, str_beq_iff c client)
]
