-- ===== src/Watch.antt =====
-- internal/server/ironhawk/watch_manager.go: which client watches which command, by the fingerprint of
-- the command and its key. Go's maps are association lists, in the order in which a range meets them;
-- a map to true stands for a set. The lock makes each operation one step.
pub mod Laws
pub mod Reach
pub mod Notify
use dice_db_distributed_syst.Prelude.{
  ℕ, ◌^◌, Bool, true, false, not, ◌&&◌, ◌||◌, Option, none, some, List, [], ◌∷◌, ◌++◌, arith, ltb,
  if◌then◌else◌, Str, codes, str_beq, nat_eq, str_eq,
}
use dice_db_distributed_syst.Table.{load, upsert, remove}
use dice_db_distributed_syst.Strconv.{parse_digits}
use dice_db_distributed_syst.Wire.{Result}
use dice_db_distributed_syst.Cmd.Session.{Cmd, key_of}

-- The fields of an IOThread that are not its connection or its session.
pub record IoThread : Type 0 where
  pub client_id : Str
  pub mode : Str

pub record WatchManager : Type 0 where
  pub client_watch_threads : List (Str × IoThread)
  pub key_fps : List (Str × List (ℕ × Bool))
  pub fp_clients : List (ℕ × List (Str × Bool))
  pub fp_cmds : List (ℕ × Cmd)

abbrev pub new_watch_manager : WatchManager
new_watch_manager = record {
  client_watch_threads = [];
  key_fps = [];
  fp_clients = [];
  fp_cmds = [];
}

-- m[k] of a map to maps, where a missing key reads as the nil map.
abbrev pub inner {ℓ κ} : {K : Type ℓ} {V : Type κ} → Option (List (K × V)) → List (K × V)
inner none = []
inner (some l) = l

unfoldable pub register_thread : IoThread → WatchManager → WatchManager
register_thread t w =
    if str_beq t.mode (codes "watch")
    then record w { client_watch_threads = upsert t.client_id t w.client_watch_threads }
    else w

-- HandleWatch, with the fingerprint that the command has.
unfoldable pub handle_watch : ℕ → Cmd → IoThread → WatchManager → WatchManager
handle_watch fp c t w =
    let key = key_of c.args in
    record w {
      key_fps = upsert key (upsert fp true (inner (load key w.key_fps))) w.key_fps;
      fp_clients = upsert fp (upsert t.client_id true (inner (load fp w.fp_clients))) w.fp_clients;
      fp_cmds = upsert fp c w.fp_cmds;
      client_watch_threads = upsert t.client_id t w.client_watch_threads;
    }

abbrev pub is_empty {ℓ} : {A : Type ℓ} → List A → Bool
is_empty [] = true
is_empty (_ ∷ _) = false

-- The fingerprint in the arguments of UNWATCH: strconv.ParseUint(arg, 10, 64).
unfoldable pub unwatched : List Str → Option ℕ
unwatched (a ∷ []) = elim (parse_digits a) [
  | none ↦ none
  | some n ↦ if ltb n (2 ^ 64) then some n else none
]
unwatched _ = none

-- A client leaves a fingerprint; the deletion in a nil map does nothing.
unfoldable pub leave : ℕ → Str → List (ℕ × List (Str × Bool)) → List (ℕ × List (Str × Bool))
leave fp client l = elim (load fp l) [
  | none ↦ l
  | some clients ↦ upsert fp (remove client clients) l
]

unfoldable pub handle_unwatch : Cmd → IoThread → WatchManager → WatchManager
unfolding unwatched leave
handle_unwatch c t w = elim (unwatched c.args) [
  | none ↦ w
  | some fp ↦
      let left = leave fp t.client_id w.fp_clients in
      if is_empty (inner (load fp left))
      then record w { fp_clients = remove fp left; fp_cmds = remove fp w.fp_cmds }
      else record w { fp_clients = left }
]

-- The loop of CleanupThreadWatchSubscriptions.
unfoldable pub cleanup_loop : Str → List (ℕ × List (Str × Bool)) → List (ℕ × List (Str × Bool))
cleanup_loop client [] = []
cleanup_loop client ((fp, clients) ∷ l) =
    let left = remove client clients in
    let rest = cleanup_loop client l in if is_empty left then rest else (fp, left) ∷ rest

unfoldable pub cleanup_thread_watch_subscriptions : IoThread → WatchManager → WatchManager
unfolding cleanup_loop
cleanup_thread_watch_subscriptions t w = record w {
  client_watch_threads = remove t.client_id w.client_watch_threads;
  fp_clients = cleanup_loop t.client_id w.fp_clients;
}

-- The inner loop of NotifyWatchers: the messages for the clients of a fingerprint. `quiet` says that
-- the command is itself a .WATCH, which only its own client hears of. A client without a thread is
-- passed over (the source deletes it from a map where it is not).
unfoldable pub recipients : Bool → Str → List (Str × IoThread) → List (Str × Bool) → List Str
recipients quiet self threads [] = []
recipients quiet self threads ((client, _) ∷ l) =
    let rest = recipients quiet self threads l in
    elim (load client threads) [
      | none ↦ rest
      | some t ↦ if quiet && not (str_beq self client) then rest else client ∷ rest
    ]

abbrev pub to_all : Result → List Str → List (Str × Result)
to_all r [] = []
to_all r (client ∷ l) = (client, r) ∷ to_all r l

-- The outer loop of NotifyWatchers: every command that watches the key is executed, which may change
-- the shards S, and its result is sent. `run` gives none where Execute gives an error.
unfoldable pub notify_loop {ℓ} :
    {S : Type ℓ}
    → (Cmd → S → Option Result × S)
    → Bool
    → Str
    → WatchManager
    → List (ℕ × Bool)
    → S
    → List (Str × Result) × S
unfolding recipients
notify_loop run quiet self w [] s = ([], s)
notify_loop run quiet self w ((fp, _) ∷ l) s = elim (load fp w.fp_cmds) [
  | none ↦ notify_loop run quiet self w l s
  | some c ↦
      let (o, s₁) = run c s in
      let (sent, s₂) = notify_loop run quiet self w l s₁ in
      elim o [
        | none ↦ (sent, s₂)
        | some r ↦
            let clients = inner (load fp w.fp_clients) in
            (to_all r (recipients quiet self w.client_watch_threads clients) ++ sent, s₂)
      ]
]

-- strings.HasSuffix
unfoldable pub has_suffix : Str → Str → Bool
has_suffix suffix [] = str_beq suffix []
has_suffix suffix (c ∷ s) = let rest = has_suffix suffix s in str_beq suffix (c ∷ s) || rest

unfoldable pub notify_watchers {ℓ} :
    {S : Type ℓ}
    → (Cmd → S → Option Result × S)
    → Cmd
    → IoThread
    → WatchManager
    → S
    → List (Str × Result) × S
unfolding notify_loop has_suffix
notify_watchers run c t w s =
    notify_loop run (has_suffix (codes ".WATCH") c.name) t.client_id w
      (inner (load (key_of c.args) w.key_fps)) s
