-- ===== src/Watch/Reach.antt =====
-- The states that the watch manager (internal/server/ironhawk/watch_manager.go) reaches by its
-- operations, in any order.
use dice_db_distributed_syst.Prelude.{
  ℕ, inl, inr, Bool, List, [], ◌∷◌, if_both, Bool-cases, Option-cases, Str, codes, str_beq, nat_eq,
  str_eq,
}
use dice_db_distributed_syst.Table.{Distinct, load, remove}
use dice_db_distributed_syst.Table.Laws.{Distinct-upsert, Distinct-remove}
use dice_db_distributed_syst.Cmd.Session.{Cmd}
use dice_db_distributed_syst.Watch.{
  IoThread, WatchManager, new_watch_manager, inner, register_thread, handle_watch, handle_unwatch,
  leave, unwatched, is_empty, cleanup_loop, cleanup_thread_watch_subscriptions,
}
use dice_db_distributed_syst.Watch.Laws.{
  IsWatchable, handle_watch-IsWatchable, handle_unwatch-IsWatchable,
  cleanup_thread_watch_subscriptions-IsWatchable, load-cleanup_loop-none,
}

pub data WatchStep : WatchManager → WatchManager → Type 0 where
  registers : (t : IoThread) (w : WatchManager) → WatchStep w (register_thread t w)
  watches :
      (fp : ℕ) (c : Cmd) (t : IoThread) (w : WatchManager) → WatchStep w (handle_watch fp c t w)
  unwatches : (c : Cmd) (t : IoThread) (w : WatchManager) → WatchStep w (handle_unwatch c t w)
  disconnects :
      (t : IoThread) (w : WatchManager) → WatchStep w (cleanup_thread_watch_subscriptions t w)

pub data Reachable : WatchManager → Type 0 where
  start : Reachable new_watch_manager
  step : {w u : WatchManager} → Reachable w → WatchStep w u → Reachable u

Distinct-leave :
    (fp : ℕ) (client : Str) (l : List (ℕ × List (Str × Bool)))
    → Distinct l
    → Distinct (leave fp client l)
unfolding leave
Distinct-leave fp client l d = elim (Option-cases (load fp l)) [
  | inl e ↦ rw (e, leave) d
  | inr (clients, e) ↦ rw (e, leave) (Distinct-upsert fp (remove client clients) l d)
]

Distinct-cleanup_loop :
    (client : Str) (l : List (ℕ × List (Str × Bool)))
    → Distinct l
    → Distinct (cleanup_loop client l)
unfolding cleanup_loop
Distinct-cleanup_loop client [] d = tt
Distinct-cleanup_loop client ((fp, clients) ∷ l) d =
    if_both Distinct (is_empty (remove client clients))
      {y = (fp, remove client clients) ∷ cleanup_loop client l} (Distinct-cleanup_loop client l d.1)
      (load-cleanup_loop-none client fp l d.0, Distinct-cleanup_loop client l d.1)

Distinct-handle_unwatch :
    (c : Cmd) (t : IoThread) (w : WatchManager)
    → Distinct w.fp_clients
    → Distinct (handle_unwatch c t w).fp_clients
unfolding handle_unwatch
Distinct-handle_unwatch c t w d = elim (Option-cases (unwatched c.args)) [
  | inl e ↦ rw (e, handle_unwatch) d
  | inr (n, e) ↦
      let l = leave n t.client_id w.fp_clients in
      let dl = Distinct-leave n t.client_id w.fp_clients d in
      elim (Bool-cases (is_empty (inner (load n l)))) [
        | inl y ↦ rw (e, y, handle_unwatch) (Distinct-remove n l dl)
        | inr y ↦ rw (e, y, handle_unwatch) dl
      ]
]

WatchStep-keeps :
    {w u : WatchManager}
    → WatchStep w u
    → IsWatchable w × Distinct w.fp_clients
    → IsWatchable u × Distinct u.fp_clients
unfolding register_thread handle_watch cleanup_thread_watch_subscriptions
WatchStep-keeps (registers t w) (v, d) =
    if_both (λ (u : WatchManager). IsWatchable u × Distinct u.fp_clients)
      (str_beq t.mode (codes "watch")) (record { command = v.command; keyed = v.keyed }, d) (v, d)
WatchStep-keeps (watches fp c t w) (v, d) =
    (handle_watch-IsWatchable fp c t w v, Distinct-upsert fp _ w.fp_clients d)
WatchStep-keeps (unwatches c t w) (v, d) =
    (handle_unwatch-IsWatchable c t w v, Distinct-handle_unwatch c t w d)
WatchStep-keeps (disconnects t w) (v, d) = (
  cleanup_thread_watch_subscriptions-IsWatchable t w d v,
  Distinct-cleanup_loop t.client_id w.fp_clients d,
)

new_watch_manager-IsWatchable : IsWatchable new_watch_manager
unfolding load
new_watch_manager-IsWatchable = record { command = λ fp client h. cc; keyed = λ fp c h. cc }

-- In every state that the watch manager reaches, each watched fingerprint has a command and each
-- fingerprint with a command stands under the command's key.
pub Reachable-IsWatchable : (w : WatchManager) → Reachable w → IsWatchable w
Reachable-IsWatchable w r = (both r).0
  where
    both : {u : WatchManager} → Reachable u → IsWatchable u × Distinct u.fp_clients
    both start = (new_watch_manager-IsWatchable, tt)
    both (step q p) = WatchStep-keeps p (both q)
