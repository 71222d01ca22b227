-- ===== src/Cmd/Session.antt =====
-- The command record of internal/cmd/cmds.go, and the commands that read no key: PING, ECHO,
-- HANDSHAKE and UNWATCH (cmd_ping.go, cmd_echo.go, cmd_handshake.go, cmd_unwatch.go).
use dice_db_distributed_syst.Prelude.{ℕ, Bool, List, [], ◌∷◌, ◌++◌, Str, codes, nat_eq, str_eq}
use dice_db_distributed_syst.Wire.{Response, Reply, done, fail, wrong_argument_count}

-- Cmd with its wire.Command; Meta is looked up at every execution here.
pub record Cmd : Type 0 where
  pub name : Str
  pub args : List Str
  pub is_replay : Bool
  pub client_id : Str
  pub mode : Str

-- strings.Join(args, " ")
unfoldable pub join : List Str → Str
join [] = []
join (a ∷ []) = a
join (a ∷ b ∷ rest) = let tail = join (b ∷ rest) in a ++ (b' ' ∷ tail)

-- Cmd.String
unfoldable pub repr : Cmd → Str
unfolding join
repr c = c.name ++ (b' ' ∷ join c.args)

-- Cmd.Fingerprint, under farm.Fingerprint64
unfoldable pub fingerprint : (Str → ℕ) → Cmd → ℕ
unfolding repr
fingerprint farm c = farm (repr c)

-- Cmd.Key
unfoldable pub key_of : List Str → Str
key_of [] = []
key_of (a ∷ _) = a

unfoldable pub eval_ping : List Str → Reply
eval_ping [] = done (Response.value (codes "PONG"))
eval_ping (a ∷ []) = done (Response.value (codes "PONG " ++ a))
eval_ping (_ ∷ _ ∷ _) = fail (Response.value []) (wrong_argument_count (codes "PING"))

unfoldable pub eval_echo : List Str → Reply
eval_echo (a ∷ []) = done (Response.value a)
eval_echo _ = fail (Response.value []) (wrong_argument_count (codes "ECHO"))

unfoldable pub eval_unwatch : List Str → Reply
eval_unwatch (_ ∷ []) = done Response.empty
eval_unwatch _ = fail Response.empty (wrong_argument_count (codes "UNWATCH"))

-- HANDSHAKE writes the client's name and mode into the command.
unfoldable pub eval_handshake : Cmd → List Str → Reply × Cmd
eval_handshake c (id ∷ mode ∷ []) = (done Response.empty, record c { client_id = id; mode = mode })
eval_handshake c _ = (fail Response.empty (wrong_argument_count (codes "HANDSHAKE")), c)
