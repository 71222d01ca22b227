-- ===== src/Auth/Laws.antt =====
-- Who gets a session of internal/auth/session.go to be active.
use dice_db_distributed_syst.Prelude.{
  ℕ, ◌≡◌, refl, ap, ◌∙◌, ◌↔◌, ◌⊎◌, inl, inr, Bool, true, false, ◌&&◌, ◌||◌, Option, none, some,
  List, [], ◌∷◌, arith, ◌==◌, if◌then◌else◌, Bool-cases, Option-cases, length, Str, str_beq,
  str_beq_iff, nat_eq, str_eq,
}
use dice_db_distributed_syst.Auth.{
  User, Session, Users, AuthConfig, get, Bcrypt, new_session, activate, is_active_status, is_active,
  any_match, validate, expire,
}

-- Whom Validate lets in.
abbrev pub admits : Bcrypt → AuthConfig → Option User → Str → Str → Bool
admits bcrypt config none username password = false
admits bcrypt config (some user) username password =
    (str_beq username config.username && length user.passwords == 0)
    || any_match bcrypt password user.passwords

abbrev pub Among : Str → List Str → Type 0
Among x [] = ⊥
Among x (y ∷ l) = (x ≡ y) ⊎ Among x l

-- One of a user's hashed passwords goes with the password.
abbrev pub HasPassword : Bcrypt → Str → List Str → Type 0
HasPassword bcrypt password l = (h : Str) × Among h l × (bcrypt.matches h password ≡ true)

any_match-HasPassword :
    (bcrypt : Bcrypt) (password : Str) (l : List Str)
    → (any_match bcrypt password l ≡ true) ↔ HasPassword bcrypt password l
unfolding any_match
any_match-HasPassword bcrypt password [] = (λ h. absurd (ground arith), λ (h, a, m). absurd a)
any_match-HasPassword bcrypt password (x ∷ l) =
    let ih = any_match-HasPassword bcrypt password l in
    elim (Bool-cases (bcrypt.matches x password)) [
      | inl e ↦ (λ h. (x, inl refl, e), λ w. rw e refl)
      | inr e ↦ (
        λ h. let (k, a, m) = ih.0 (ground arith) in (k, inr a, m),
        λ (k, a, m). elim a [
          | inl same ↦ absurd (ground arith)
          | inr a' ↦ let r = ih.1 (k, a', m) in ground arith
        ],
      )
    ]

-- Whom Validate is to let in: a user of the store with the configured name and no password, or with a
-- password that matches.
abbrev pub IsAdmitted : Bcrypt → AuthConfig → Users → Str → Str → Type 0
IsAdmitted bcrypt config users username password =
    (user : User) × (get username users ≡ some user)
    × (((username ≡ config.username) × (user.passwords ≡ []))
        ⊎ HasPassword bcrypt password user.passwords)

no_password : (l : List Str) → length l ≡ 0 → l ≡ []
no_password [] h = refl
no_password (x ∷ l) h = absurd (omega arith)

module _ (bcrypt : Bcrypt) (config : AuthConfig) (users : Users) where
  -- The branches of Validate.
  validate-admits :
      (now : ℕ) (username password : Str) (session : Session)
      → (((validate bcrypt config users now username password session).0 ≡ none)
          ↔ (admits bcrypt config (get username users) username password ≡ true))
        × ((validate bcrypt config users now username password session).1 ≡ (
            if admits bcrypt config (get username users) username password
            then activate now (get username users) session
            else session))
  unfolding validate
  validate-admits now username password session = elim (Option-cases (get username users)) [
    | inl e ↦ rw (validate, e) (ground arith)
    | inr (user, e) ↦ rw (validate, e) (ground arith)
  ]

  admits-IsAdmitted :
      (username password : Str)
      → (admits bcrypt config (get username users) username password ≡ true)
        ↔ IsAdmitted bcrypt config users username password
  admits-IsAdmitted username password = elim (Option-cases (get username users)) [
    | inl e ↦ (λ h. absurd (ground arith), λ (user, g, w). absurd (ground arith))
    | inr (user, e) ↦ (
      λ h. elim (Bool-cases (str_beq username config.username && length user.passwords == 0)) [
        | inl t ↦ (
          user,
          e,
          inl (
            ground (arith, str_beq_iff username config.username),
            no_password user.passwords (ground arith),
          ),
        )
        | inr t ↦
            (user, e, inr ((any_match-HasPassword bcrypt password user.passwords).0 (ground arith)))
      ],
      λ (user', g, w). elim w [
        | inl (n, none_there) ↦
            let q = (str_beq_iff username config.username).1 n in
            let len = ap length none_there in ground arith
        | inr has ↦
            let m = (any_match-HasPassword bcrypt password user'.passwords).1 has in ground arith
      ],
    )
  ]

  -- Validate has no error exactly for a user of the store with the configured name and no
  -- password, or with a hashed password that goes with the one given; the session is then active
  -- and that user's, and it is left as it was otherwise.
  pub validate-IsAdmitted :
      (now : ℕ) (username password : Str) (session : Session)
      → (((validate bcrypt config users now username password session).0 ≡ none)
          ↔ IsAdmitted bcrypt config users username password)
        × (IsAdmitted bcrypt config users username password
            → (is_active_status
                  (validate bcrypt config users now username password session).1.status
                ≡ true)
              × ((validate bcrypt config users now username password session).1.user
                  ≡ get username users))
        × (¬ IsAdmitted bcrypt config users username password
            → (validate bcrypt config users now username password session).1 ≡ session)
  unfolding activate
  validate-IsAdmitted now username password session =
      let (e, s) = validate-admits now username password session in
      let (to, back) = admits-IsAdmitted username password in
      (
        (λ h. to (e.0 h), λ h. e.1 (back h)),
        λ h.
            let t = back h in
            let s' : (validate bcrypt config users now username password session).1
                ≡ activate now (get username users) session =
              s ∙ rw t refl in
            rw s' (refl, refl),
        λ h. elim (Bool-cases (admits bcrypt config (get username users) username password)) [
          | inl t ↦ absurd (h (to t))
          | inr t ↦ s ∙ rw t refl
        ],
      )

  -- What a client can bring about without being admitted: it opens a session, the server asks whether
  -- the session is active, the session expires, and Validate refuses.
  pub data Unadmitted : Session → Type 0 where
    opened : (unix now : ℕ) → Unadmitted (new_session unix now)
    asked : (now : ℕ) (s : Session) → Unadmitted s → Unadmitted (is_active config now s).1
    expires : (s : Session) → Unadmitted s → Unadmitted (expire s)
    refused :
        (now : ℕ) (username password : Str) (s : Session)
        → admits bcrypt config (get username users) username password ≡ false
        → Unadmitted s
        → Unadmitted (validate bcrypt config users now username password s).1

  is_active-inactive :
      (now : ℕ) (s : Session)
      → str_beq config.password [] ≡ false
      → is_active_status s.status ≡ false
      → is_active config now s ≡ (false, s)
  unfolding is_active
  is_active-inactive now s h e = rw (h, e) refl

  -- With a password configured, a session that was opened, asked for, expired and refused in any
  -- order is not active.
  pub Unadmitted-inactive :
      (s : Session)
      → str_beq config.password [] ≡ false
      → Unadmitted s
      → is_active_status s.status ≡ false
  unfolding new_session expire
  Unadmitted-inactive s h (opened unix now) = refl
  Unadmitted-inactive s h (asked now s' u) =
      let e = Unadmitted-inactive s' h u in rw (is_active-inactive now s' h e) e
  Unadmitted-inactive s h (expires s' u) = refl
  Unadmitted-inactive s h (refused now username password s' r u) =
      let v = (validate-admits now username password s').1 in
      let same : (validate bcrypt config users now username password s').1 ≡ s' = v ∙ rw r refl in
      rw same (Unadmitted-inactive s' h u)
