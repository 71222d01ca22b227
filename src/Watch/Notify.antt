-- ===== src/Watch/Notify.antt =====
-- Who is told what by NotifyWatchers of internal/server/ironhawk/watch_manager.go.
use dice_db_distributed_syst.Prelude.{
  ℕ, ◌≡◌, refl, sym, ap, ◌∙◌, ◌↔◌, ◌⊎◌, inl, inr, Bool, true, Option, none, some, List, [], ◌∷◌,
  ◌++◌, arith, Bool-cases, Option-cases, Str, codes, str_beq, str_beq_iff, nat_eq, str_eq,
}
use mathlib.Core.Path.{subst}
use dice_db_distributed_syst.Table.{load}
use dice_db_distributed_syst.Wire.{Result}
use dice_db_distributed_syst.Cmd.Session.{Cmd, key_of}
use dice_db_distributed_syst.Watch.{
  IoThread, WatchManager, inner, recipients, to_all, notify_loop, has_suffix, notify_watchers,
}
use dice_db_distributed_syst.Watch.Laws.{subscribed, is_member, recipients_exact}

-- A client is sent a result by one of the messages.
abbrev pub IsSent : Str → Result → List (Str × Result) → Type 0
IsSent client r [] = ⊥
IsSent client r ((c, q) ∷ l) = ((client ≡ c) × (r ≡ q)) ⊎ IsSent client r l

abbrev pub EndsIn : Str → Str → Type 0
EndsIn suffix s = (p : Str) × (s ≡ p ++ suffix)

has_suffix-append : (suffix p s : Str) → s ≡ p ++ suffix → has_suffix suffix s ≡ true
unfolding has_suffix
has_suffix-append suffix [] [] e = (str_beq_iff suffix []).1 (sym e)
has_suffix-append suffix [] (c ∷ s) e =
    let t = (str_beq_iff suffix (c ∷ s)).1 (sym e) in ground arith
has_suffix-append suffix (x ∷ p) [] e = absurd (ground arith)
has_suffix-append suffix (x ∷ p) (c ∷ s) e =
    let tail : s ≡ p ++ suffix = ground arith in
    let t = has_suffix-append suffix p s tail in ground arith

has_suffix-EndsIn : (suffix s : Str) → has_suffix suffix s ≡ true → EndsIn suffix s
unfolding has_suffix
has_suffix-EndsIn suffix [] h = ([], sym ((str_beq_iff suffix []).0 h))
has_suffix-EndsIn suffix (c ∷ s) h = elim (Bool-cases (str_beq suffix (c ∷ s))) [
  | inl t ↦ ([], sym ((str_beq_iff suffix (c ∷ s)).0 t))
  | inr t ↦ let (p, e) = has_suffix-EndsIn suffix s (ground arith) in (c ∷ p, ap (λ k. c ∷ k) e)
]

to_all-IsSent :
    (client : Str) (r q : Result) (l : List Str)
    → IsSent client r (to_all q l) ↔ ((is_member client l ≡ true) × (r ≡ q))
to_all-IsSent client r q [] = (λ h. absurd h, λ h. absurd (ground arith))
to_all-IsSent client r q (c ∷ l) =
    let ih = to_all-IsSent client r q l in
    (
      λ h. elim h [
        | inl (e, g) ↦ let t = (str_beq_iff c client).1 (sym e) in (ground arith, g)
        | inr h' ↦ let (m, g) = ih.0 h' in (ground arith, g)
      ],
      λ (m, g). elim (Bool-cases (str_beq c client)) [
        | inl t ↦ inl (sym ((str_beq_iff c client).0 t), g)
        | inr t ↦ inr (ih.1 (ground arith, g))
      ],
    )

append-IsSent :
    (client : Str) (r : Result) (l k : List (Str × Result))
    → IsSent client r (l ++ k) ↔ (IsSent client r l ⊎ IsSent client r k)
append-IsSent client r [] k = (λ h. inr h, λ h. elim h [ inl x ↦ absurd x | inr x ↦ x ])
append-IsSent client r ((c, q) ∷ l) k =
    let ih = append-IsSent client r l k in
    (
      λ h. elim h [
        | inl x ↦ inl (inl x)
        | inr y ↦ elim (ih.0 y) [ inl z ↦ inl (inr z) | inr z ↦ inr z ]
      ],
      λ h. elim h [
        | inl x ↦ elim x [ inl y ↦ inl y | inr y ↦ inr (ih.1 (inl y)) ]
        | inr x ↦ inr (ih.1 (inr x))
      ],
    )

module _ {ℓ} {S : Type ℓ} (run : Cmd → S → Option Result × S) (w : WatchManager) where
  -- The shards after the commands of some fingerprints have been executed in their order.
  abbrev pub state_after : List (ℕ × Bool) → S → S
  state_after [] s = s
  state_after ((fp, _) ∷ l) s =
      state_after l (elim (load fp w.fp_cmds) [ none ↦ s | some c ↦ (run c s).1 ])

  -- A fingerprint of the list has a command that gives a result, after those before it.
  abbrev pub Gives : List (ℕ × Bool) → S → ℕ → Result → Type 0
  Gives l s fp r =
      (before after : List (ℕ × Bool)) × (b : Bool) × (c : Cmd) × (l ≡ before ++ (fp, b) ∷ after)
      × (load fp w.fp_cmds ≡ some c)
      × ((run c (state_after before s)).0 ≡ some r)

  -- A client of the fingerprint with a thread hears of a command of a thread; of a .WATCH only the
  -- thread's own client.
  abbrev pub Hears : Cmd → IoThread → ℕ → Str → Type 0
  Hears c t fp client =
      (subscribed fp client w ≡ true)
      × ((u : IoThread) × (load client w.client_watch_threads ≡ some u))
      × (EndsIn (codes ".WATCH") c.name → client ≡ t.client_id)

  module _ (c : Cmd) (t : IoThread) (client : Str) (r : Result) where
    abbrev quiet : Bool
    quiet = has_suffix (codes ".WATCH") c.name

    abbrev told : ℕ → List Str
    told fp = recipients quiet t.client_id w.client_watch_threads (inner (load fp w.fp_clients))

    told-Hears : (fp : ℕ) → (is_member client (told fp) ≡ true) ↔ Hears c t fp client
    told-Hears fp =
        let exact =
          recipients_exact quiet t.client_id client w.client_watch_threads
            (inner (load fp w.fp_clients)) in
        let same = str_beq_iff t.client_id client in
        (
          λ h. (
            ground arith,
            elim (Option-cases (load client w.client_watch_threads)) [
              | inl e ↦ absurd (ground arith)
              | inr (u, e) ↦ (u, e)
            ],
            λ (p, e).
                let q = has_suffix-append (codes ".WATCH") p c.name e in
                sym (same.0 (ground arith)),
          ),
          λ (on, (u, e), own). elim (Bool-cases quiet) [
            | inl q ↦
                let z = same.1 (sym (own (has_suffix-EndsIn (codes ".WATCH") c.name q))) in
                ground arith
            | inr q ↦ ground arith
          ],
        )

    -- The messages for the first fingerprint.
    abbrev first : ℕ → S → List (Str × Result)
    first fp s = elim (load fp w.fp_cmds) [
      | none ↦ []
      | some d ↦ elim (run d s).0 [ none ↦ [] | some q ↦ to_all q (told fp) ]
    ]

    abbrev next : ℕ → S → S
    next fp s = elim (load fp w.fp_cmds) [ none ↦ s | some d ↦ (run d s).1 ]

    notify_loop-next :
        (fp : ℕ) (b : Bool) (l : List (ℕ × Bool)) (s : S)
        → notify_loop run quiet t.client_id w ((fp, b) ∷ l) s ≡ (
          first fp s ++ (notify_loop run quiet t.client_id w l (next fp s)).0,
          (notify_loop run quiet t.client_id w l (next fp s)).1,
        )
    unfolding notify_loop
    notify_loop-next fp b l s = elim (Option-cases (load fp w.fp_cmds)) [
      | inl e ↦ rw (notify_loop, first, next, e) refl
      | inr (d, e) ↦ elim (Option-cases (run d s).0) [
        | inl g ↦ rw (notify_loop, first, next, e, g) refl
        | inr (q, g) ↦ rw (notify_loop, first, next, e, g) refl
      ]
    ]

    first-none : (fp : ℕ) (s : S) → load fp w.fp_cmds ≡ none → first fp s ≡ []
    first-none fp s e = rw (first, e) refl

    first-error :
        (fp : ℕ) (s : S) (d : Cmd)
        → load fp w.fp_cmds ≡ some d
        → (run d s).0 ≡ none
        → first fp s ≡ []
    first-error fp s d e g = rw (first, e, g) refl

    first-result :
        (fp : ℕ) (s : S) (d : Cmd) (q : Result)
        → load fp w.fp_cmds ≡ some d
        → (run d s).0 ≡ some q
        → first fp s ≡ to_all q (told fp)
    first-result fp s d q e g = rw (first, e, g) refl

    abbrev Told : ℕ → S → Type 0
    Told fp s =
        (d : Cmd) × (load fp w.fp_cmds ≡ some d)
        × ((run d s).0 ≡ some r)
        × (is_member client (told fp) ≡ true)

    first-Told : (fp : ℕ) (s : S) → IsSent client r (first fp s) → Told fp s
    first-Told fp s h = elim (Option-cases (load fp w.fp_cmds)) [
      | inl e ↦ absurd (subst (IsSent client r) (first-none fp s e) h)
      | inr (d, e) ↦ elim (Option-cases (run d s).0) [
        | inl g ↦ absurd (subst (IsSent client r) (first-error fp s d e g) h)
        | inr (q, g) ↦
            let (m, z) =
              (to_all-IsSent client r q (told fp)).0
                (subst (IsSent client r) (first-result fp s d q e g) h) in
            (d, e, g ∙ ap some (sym z), m)
      ]
    ]

    Told-first : (fp : ℕ) (s : S) → Told fp s → IsSent client r (first fp s)
    Told-first fp s (d, e, g, m) =
        subst (IsSent client r) (sym (first-result fp s d r e g))
          ((to_all-IsSent client r r (told fp)).1 (m, refl))

    abbrev Found : List (ℕ × Bool) → S → Type 0
    Found l s = (fp : ℕ) × Gives l s fp r × (is_member client (told fp) ≡ true)

    Found-cons :
        (fp : ℕ) (b : Bool) (l : List (ℕ × Bool)) (s : S)
        → (Told fp s ⊎ Found l (next fp s))
        → Found ((fp, b) ∷ l) s
    Found-cons fp b l s (inl (d, e, g, m)) = (fp, ([], l, b, d, refl, e, g), m)
    Found-cons fp b l s (inr (k, (before, after, b', d, p, e, g), m)) =
        (k, ((fp, b) ∷ before, after, b', d, ap (λ u. (fp, b) ∷ u) p, e, g), m)

    Found-split :
        (fp : ℕ) (b : Bool) (l : List (ℕ × Bool)) (s : S) (k : ℕ) (before after : List (ℕ × Bool))
        (b' : Bool) (d : Cmd)
        → (fp, b) ∷ l ≡ before ++ (k, b') ∷ after
        → load k w.fp_cmds ≡ some d
        → (run d (state_after before s)).0 ≡ some r
        → is_member client (told k) ≡ true
        → Told fp s ⊎ Found l (next fp s)
    Found-split fp b l s k [] after b' d p e g m =
        let same : fp ≡ k = ground arith in
        inl
          (d, ap (λ n. load n w.fp_cmds) same ∙ e, g, ap (λ n. is_member client (told n)) same ∙ m)
    Found-split fp b l s k ((k', b'') ∷ before) after b' d p e g m =
        let same : fp ≡ k' = ground arith in
        let tail : l ≡ before ++ (k, b') ∷ after = ground arith in
        inr (
          k,
          (
            before,
            after,
            b',
            d,
            tail,
            e,
            ap (λ n. (run d (state_after before (next n s))).0) same ∙ g,
          ),
          m,
        )

    Found-nil : (s : S) → ¬ Found [] s
    Found-nil s (k, ([], after, b, d, p, e, g), m) = absurd (ground arith)
    Found-nil s (k, (x ∷ before, after, b, d, p, e, g), m) = absurd (ground arith)

    notify_loop-Found :
        (l : List (ℕ × Bool)) (s : S)
        → IsSent client r (notify_loop run quiet t.client_id w l s).0 ↔ Found l s
    unfolding notify_loop
    notify_loop-Found [] s = (λ h. absurd h, λ f. absurd (Found-nil s f))
    notify_loop-Found ((fp, b) ∷ l) s =
        let rest = (notify_loop run quiet t.client_id w l (next fp s)).0 in
        let whole = ap (λ x. x.0) (notify_loop-next fp b l s) in
        let (to, from) = notify_loop-Found l (next fp s) in
        let (split, join) = append-IsSent client r (first fp s) rest in
        (
          λ h. Found-cons fp b l s (elim (split (subst (IsSent client r) whole h)) [
            | inl x ↦ inl (first-Told fp s x)
            | inr y ↦ inr (to y)
          ]),
          λ (k, (before, after, b', d, p, e, g), m). subst (IsSent client r) (sym whole) (
              join (elim (Found-split fp b l s k before after b' d p e g m) [
                | inl x ↦ inl (Told-first fp s x)
                | inr y ↦ inr (from y)
              ])),
        )

    notify_loop-state :
        (l : List (ℕ × Bool)) (s : S)
        → (notify_loop run quiet t.client_id w l s).1 ≡ state_after l s
    unfolding notify_loop
    notify_loop-state [] s = refl
    notify_loop-state ((fp, b) ∷ l) s =
        ap (λ x. x.1) (notify_loop-next fp b l s) ∙ notify_loop-state l (next fp s)

    -- NotifyWatchers sends a client a result exactly if a fingerprint of the key of the command
    -- has a command that gives this result, executed after those of the fingerprints before it,
    -- the client has subscribed to that fingerprint and has a thread, and, where the name of the
    -- command ends in .WATCH, is the client of the thread; the shards are then as after all these
    -- commands.
    pub notify_watchers-Hears :
        (s : S)
        → (IsSent client r (notify_watchers run c t w s).0 ↔ (
            (fp : ℕ) × Gives (inner (load (key_of c.args) w.key_fps)) s fp r × Hears c t fp client))
          × ((notify_watchers run c t w s).1
              ≡ state_after (inner (load (key_of c.args) w.key_fps)) s)
    unfolding notify_watchers
    notify_watchers-Hears s =
        let l = inner (load (key_of c.args) w.key_fps) in
        let (to, from) = notify_loop-Found l s in
        (
          (
            λ h. let (fp, g, m) = to h in (fp, g, (told-Hears fp).0 m),
            λ (fp, g, m). from (fp, g, (told-Hears fp).1 m),
          ),
          notify_loop-state l s,
        )
