-- ===== src/Cmd.antt =====
-- internal/cmd: the commands of a shard.
pub mod Env
pub mod Params
pub mod Strings
pub mod Counter
pub mod Expire
pub mod Keyspace
pub mod Hash
pub mod Session
pub mod Execute
pub mod Watched
pub mod Dispatch
pub mod Keeps
pub mod Reach
