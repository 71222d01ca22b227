-- ===== src/Auth.antt =====
-- internal/auth/session.go: users, passwords and sessions. bcrypt is a parameter; the store of users
-- is one map, under the lock that each of its operations takes.
pub mod Laws
use dice_db_distributed_syst.Prelude.{
  ℕ, Bool, true, false, not, ◌&&◌, Option, none, some, List, [], ◌∷◌, ◌++◌, arith, ◌==◌,
  if◌then◌else◌, length, Str, str_beq, nat_eq, str_eq,
}

pub record User : Type 0 where
  pub username : Str
  pub passwords : List Str
  pub is_password_enabled : Bool

pub data SessionStatus : Type 0 where
  pending active expired : SessionStatus

pub record Session : Type 0 where
  pub id : ℕ
  pub user : Option User
  pub created_at : ℕ
  pub last_accessed_at : ℕ
  pub status : SessionStatus

-- The user store's map, and what the configuration says.
abbrev pub Users : Type 0
Users = Str → Option User

pub record AuthConfig : Type 0 where
  pub username : Str
  pub password : Str

abbrev pub new_users_store : Users
new_users_store name = none

-- Get, none for the error that there is no such user.
unfoldable pub get : Str → Users → Option User
get name users = users name

unfoldable pub add : Str → Users → User × Users
add name users =
    let user : User = record { username = name; passwords = []; is_password_enabled = false } in
    (user, λ other. if str_beq other name then some user else users other)

-- GenerateFromPassword and CompareHashAndPassword.
pub record Bcrypt : Type 0 where
  pub generate : Str → Option Str
  pub matches : Str → Str → Bool

-- SetPassword: an error leaves the passwords as they are.
unfoldable pub set_password : Bcrypt → Str → User → Option User
set_password bcrypt password user = elim (bcrypt.generate password) [
  | none ↦ none
  | some hashed ↦ some (record user { passwords = user.passwords ++ hashed ∷ [] })
]

-- NewSession at a time in seconds and in milliseconds.
unfoldable pub new_session : ℕ → ℕ → Session
new_session unix now = record {
  id = unix;
  user = none;
  created_at = now;
  last_accessed_at = now;
  status = pending;
}

unfoldable pub activate : ℕ → Option User → Session → Session
activate now user session = record session {
  user = user;
  status = active;
  created_at = now;
  last_accessed_at = now;
}

abbrev pub is_active_status : SessionStatus → Bool
is_active_status active = true
is_active_status _ = false

-- IsActive: without a configured password every session becomes active.
unfoldable pub is_active : AuthConfig → ℕ → Session → Bool × Session
unfolding activate
is_active config now session =
    let s =
      if str_beq config.password [] && not (is_active_status session.status)
      then activate now session.user session
      else session in
    if is_active_status s.status then (true, record s { last_accessed_at = now }) else (false, s)

-- The loop of Validate over the user's passwords.
unfoldable pub any_match : Bcrypt → Str → List Str → Bool
any_match bcrypt password [] = false
any_match bcrypt password (hashed ∷ l) =
    let rest = any_match bcrypt password l in if bcrypt.matches hashed password then true else rest

pub data AuthError : Type 0 where
  user_not_found wrong_pass : AuthError

-- Validate, with its error if it has one.
unfoldable pub validate :
    Bcrypt → AuthConfig → Users → ℕ → Str → Str → Session → Option AuthError × Session
unfolding get activate any_match
validate bcrypt config users now username password session = elim (get username users) [
  | none ↦ (some user_not_found, session)
  | some user ↦
      if str_beq username config.username && length user.passwords == 0
      then (none, activate now (some user) session)
      else if any_match bcrypt password user.passwords
      then (none, activate now (some user) session)
      else (some wrong_pass, session)
]

unfoldable pub expire : Session → Session
expire session = record session { status = expired }
