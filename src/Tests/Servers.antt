-- ===== src/Tests/Servers.antt =====
-- The theorems on the server (internal/server/ironhawk) at concrete clients and commands.
use dice_db_distributed_syst.Prelude.{
  ℕ, suc, ◌↔◌, Option, ◌≡◌, refl, true, false, not, ◌&&◌, none, some, [], ◌∷◌, ◌==◌, Str, codes,
  str_beq, nat_eq, str_eq,
}
use dice_db_distributed_syst.Table.{Distinct, load, upsert}
use dice_db_distributed_syst.Wire.{Response, Result, ok_result}
use dice_db_distributed_syst.Cmd.Session.{Cmd, key_of}
use dice_db_distributed_syst.Watch.{
  IoThread, WatchManager, new_watch_manager, handle_watch, handle_unwatch, unwatched, inner,
  notify_watchers,
}
use dice_db_distributed_syst.Watch.Laws.{subscribed, IsWatchable, handle_unwatch-subscribed}
use dice_db_distributed_syst.Watch.Notify.{IsSent, state_after, Gives, Hears, notify_watchers-Hears}
use dice_db_distributed_syst.Watch.Reach.{start, step, watches, Reachable-IsWatchable}
use dice_db_distributed_syst.Serve.{is_watchable, watchable_names, respond}
use dice_db_distributed_syst.Serve.Laws.{Ends, respond-answers, watch_suffix}
use dice_db_distributed_syst.Watch.{has_suffix}
use dice_db_distributed_syst.Tests.{key_n, env}

abbrev client : Str
client = codes "c1"

abbrev thread : IoThread
thread = record { client_id = client; mode = codes "watch" }

abbrev get_n : Cmd
get_n = record {
  name = codes "GET";
  args = key_n ∷ [];
  is_replay = false;
  client_id = client;
  mode = codes "command";
}

abbrev watching : WatchManager
watching = handle_watch 17 get_n thread new_watch_manager

abbrev unwatch_17 : Cmd
unwatch_17 = record get_n { name = codes "UNWATCH"; args = codes "17" ∷ [] }

Reachable-IsWatchable_example : IsWatchable watching
Reachable-IsWatchable_example =
    Reachable-IsWatchable watching (step start (watches 17 get_n thread new_watch_manager))

handle_unwatch-subscribed_example :
    subscribed 17 client (handle_unwatch unwatch_17 thread watching)
    ≡ elim (unwatched (codes "17" ∷ [])) [
      | none ↦ subscribed 17 client watching
      | some n ↦ not (n == 17 && str_beq client client) && subscribed 17 client watching
    ]
handle_unwatch-subscribed_example = handle_unwatch-subscribed unwatch_17 thread 17 client watching

watching-Distinct : Distinct watching.fp_clients
unfolding handle_watch load upsert
watching-Distinct = (refl, tt)

-- Every command gives the same result and is counted.
abbrev counted : Cmd → ℕ → Option Result × ℕ
counted c n = (some (ok_result Response.empty), suc n)

notify_watchers-Hears_example :
    (IsSent client (ok_result Response.empty) (notify_watchers counted get_n thread watching 3).0
      ↔ ((fp : ℕ) × Gives counted watching
            (inner (load (key_of get_n.args) watching.key_fps))
            3
            fp
            (ok_result Response.empty)
          × Hears counted watching get_n thread fp client))
    × ((notify_watchers counted get_n thread watching 3).1
        ≡ state_after counted watching (inner (load (key_of get_n.args) watching.key_fps)) 3)
notify_watchers-Hears_example =
    notify_watchers-Hears counted watching get_n thread client (ok_result Response.empty) 3

no_handshake : str_beq (codes "GET") (codes "HANDSHAKE") ≡ false
unfolding str_beq
no_handshake = refl

respond-answers_example :
    Ends
      (not (is_watchable (codes "GET") watchable_names)
        && not (has_suffix watch_suffix (codes "GET")))
      (respond env true get_n thread (ok_result Response.empty))
respond-answers_example =
    respond-answers env true get_n thread (ok_result Response.empty) (λ e. cc no_handshake)
