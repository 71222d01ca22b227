-- ===== src/Serve.antt =====
-- One round of IOThread.Start (internal/server/ironhawk/iothread.go), and IOThreadManager
-- (iothread_manager.go). A round is what happens to one received command; what it sends, logs and hands
-- to the watch manager is the list of its events, in order. HandleWatch and NotifyWatchers run in
-- goroutines of their own, so that only their start is an event here.
pub mod Laws
use dice_db_distributed_syst.Prelude.{
  ℕ, ◌+◌, ◌-◌, ◌%◌, ◌^◌, Bool, true, false, not, ◌&&◌, ◌||◌, none, some, List, [], ◌∷◌, ◌++◌, arith,
  ltb, leb, if◌then◌else◌, length, Str, codes, str_beq, nat_eq, str_eq,
}
use dice_db_distributed_syst.Table.{load, upsert, remove}
use dice_db_distributed_syst.Wire.{
  Result, Reply, Run, panic, ◌>>=◌, CmdError, Status, Response, ok_text, err_result,
}
use dice_db_distributed_syst.Cmd.Env.{Env}
use dice_db_distributed_syst.Cmd.Session.{Cmd, fingerprint}
use dice_db_distributed_syst.Cmd.Execute.{Shards, Executed}
use dice_db_distributed_syst.Watch.{IoThread, has_suffix}

-- An error is sent as a Result with Status_ERR and the error's text.
pub data Event : Type 0 where
  send : Result → Event
  send_error : CmdError → Event
  log : Cmd → Event
  watch : Cmd → Event
  unwatch : Cmd → Event
  register : IoThread → Event
  notify : Cmd → Event

abbrev pub max_wire_size : ℕ
max_wire_size = 33554432

-- safeSend's replacement of a message that is too long.
unfoldable pub safe_send : Result → Result
unfolding err_result
safe_send r =
    if ltb max_wire_size (length r.message)
    then err_result (codes "response too large (truncated by server)")
    else r

-- The commands whose CommandMeta has IsWatchable.
abbrev pub watchable_names : List Str
watchable_names =
    codes "GET"
    ∷ codes "HGET"
    ∷ codes "HGETALL"
    ∷ codes "ZCARD"
    ∷ codes "ZCOUNT"
    ∷ codes "ZRANGE"
    ∷ codes "ZRANK"
    ∷ []

unfoldable pub is_watchable : Str → List Str → Bool
is_watchable name [] = false
is_watchable name (n ∷ l) = let rest = is_watchable name l in str_beq n name || rest

-- `tmp := _c` copies the pointer: the command itself is renamed, and the later tests see the new name.
unfoldable pub mark_watchable : Env → Bool → Cmd → Result → Cmd × Result
unfolding fingerprint
mark_watchable env false c rs = (c, rs)
mark_watchable env true c rs =
    let c' = record c { name = c.name ++ codes ".WATCH" } in
    (c', record rs { fingerprint64 = fingerprint env.fingerprint c' })

-- `res.Rs.Status` and the message of a normal response.
unfoldable pub normal_result : Result → Result
normal_result rs = record rs {
  status = Status.ok;
  message = elim rs.message [ [] ↦ ok_text | m ∷ ms ↦ m ∷ ms ];
}

-- The thread after a HANDSHAKE.
abbrev pub handshaken : Cmd → IoThread → Run IoThread
handshaken c t =
    if str_beq c.name (codes "HANDSHAKE")
    then elim c.args [
      | [] ↦ panic
      | id ∷ rest ↦ elim rest [
        | [] ↦ panic
        | mode ∷ _ ↦ Run.ok (record { client_id = id; mode = mode })
      ]
    ]
    else Run.ok t

-- The calls of the watch manager and the answer, by the name that the command has then.
unfoldable pub finish : Cmd → IoThread → Result → List Event
unfolding has_suffix safe_send
finish c t rs =
    let watching = has_suffix (codes "WATCH") c.name in
    let hand_over =
      if watching
      then watch c ∷ []
      else if has_suffix (codes "UNWATCH") c.name
      then unwatch c ∷ []
      else [] in
    let answer = if watching then [] else send (safe_send rs) ∷ [] in
    hand_over ++ register t ∷ answer ++ notify c ∷ []

unfoldable pub end_round : Cmd → IoThread → Result → List Event → Run (IoThread × List Event)
unfolding finish
end_round c t rs logged = handshaken c t >>= λ t'. Run.ok (t', logged ++ finish c t' rs)

-- The normal response: `logs` says that there is a WAL.
unfoldable pub respond : Env → Bool → Cmd → IoThread → Result → Run (IoThread × List Event)
unfolding mark_watchable normal_result end_round is_watchable
respond env logs c t rs =
    let logged = if logs && not c.is_replay then log c ∷ [] else [] in
    let (c', rs') = mark_watchable env (is_watchable c.name watchable_names) c (normal_result rs) in
    end_round c' (record t { client_id = c.client_id }) rs' logged

-- A round of the loop. An error is answered and nothing else is done.
unfoldable pub serve :
    Env
    → (Cmd → Shards → Executed)
    → Bool
    → IoThread
    → Str
    → List Str
    → Shards
    → Run (IoThread × List Event × Shards)
unfolding respond
serve env run logs t name args sm =
    let c : Cmd = record {
      name = name;
      args = args;
      is_replay = false;
      client_id = t.client_id;
      mode = t.mode;
    } in
    run c sm >>= λ o. elim o.0.error [
      | some e ↦ Run.ok (t, send_error e ∷ [], o.2)
      | none ↦ respond env logs o.1 t o.0.result >>= λ p. Run.ok (p.0, p.1, o.2)
    ]

-- IOThreadManager; numIOThreads is a uint32.
pub record IoThreadManager : Type 0 where
  pub connected_clients : List (Str × IoThread)
  pub num_io_threads : ℕ

pub data ManagerResult : Type 0 where
  registered unregistered max_clients_reached io_thread_not_found : ManagerResult

abbrev pub new_io_thread_manager : IoThreadManager
new_io_thread_manager = record { connected_clients = []; num_io_threads = 0 }

-- `max_clients` is uint32(config.Config.MaxClients).
unfoldable pub register_io_thread : ℕ → IoThread → IoThreadManager → ManagerResult × IoThreadManager
register_io_thread max_clients t m =
    if leb max_clients m.num_io_threads then (max_clients_reached, m) else (
      registered,
      record {
        connected_clients = upsert t.client_id t m.connected_clients;
        num_io_threads = (m.num_io_threads + 1) % 2 ^ 32;
      },
    )

-- IOThread.Stop never gives an error.
unfoldable pub unregister_io_thread : Str → IoThreadManager → ManagerResult × IoThreadManager
unregister_io_thread id m = elim (load id m.connected_clients) [
  | none ↦ (io_thread_not_found, m)
  | some _ ↦ (
    unregistered,
    record {
      connected_clients = remove id m.connected_clients;
      num_io_threads = (m.num_io_threads + (2 ^ 32 - 1)) % 2 ^ 32;
    },
  )
]
