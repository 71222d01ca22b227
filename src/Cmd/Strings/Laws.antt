-- ===== src/Cmd/Strings/Laws.antt =====
-- SET (internal/cmd/cmd_set.go) against the view of a store, and its options.
use dice_db_distributed_syst.Prelude.{
  ℕ, ◌≡◌, refl, sym, ap, ◌∙◌, inl, inr, Bool, true, false, not, ◌&&◌, ◌||◌, Option, none, some,
  arith, if◌then◌else◌, Bool-cases, Str, str_beq, str_beq_iff, nat_eq, str_eq,
}
use dice_db_distributed_syst.Prelude.Int.{ℤ, pos, -ℤ_parts}
use dice_db_distributed_syst.Table
use dice_db_distributed_syst.Object.{ObjectType, Value}
use dice_db_distributed_syst.Table.Laws.{get-delete}
use dice_db_distributed_syst.Store.Fields.{delete_key-SameTables}
use dice_db_distributed_syst.Store.Invariant.Basic.{delete_key-IsValid, touch_obj-IsValid}
use dice_db_distributed_syst.Store.State.{
  notify_watch_manager, write_obj, Store, new_obj, touch_obj,
}
use dice_db_distributed_syst.Store.Delete.{delete_key, del_cmd}
use dice_db_distributed_syst.Store.Put.{put_helper}
use dice_db_distributed_syst.Store.Access.{get}
use dice_db_distributed_syst.Store.Invariant.{IsValid}
use dice_db_distributed_syst.Store.Invariant.Access.{Lookup, absent, gone, found, get_helper-Lookup}
use dice_db_distributed_syst.Store.View.{Entry, view}
use dice_db_distributed_syst.Store.View.Basic.{Lookup-view, has_expired-eq-is_past}
use dice_db_distributed_syst.Store.View.Write.{replaced}
use dice_db_distributed_syst.Store.View.Create.{HasRoom, put_new, put_fresh-view}
use dice_db_distributed_syst.Strconv.{parse_int}
use dice_db_distributed_syst.Cmd.Env.{Env, create_object_from_value}
use dice_db_distributed_syst.Cmd.Params.{ParamMap, has, xx, nx, keepttl}
use dice_db_distributed_syst.Cmd.Strings.{set_value, set_cmd, is_nil, set_found}

-- The value and the type that a text stands for.
abbrev pub typed : Env → Str → Value × ObjectType
typed env t = elim (parse_int t) [
  | some n ↦ (Value.int n, ObjectType.int)
  | none ↦ elim (env.parse_float t) [
    | some f ↦ (Value.float f, ObjectType.float)
    | none ↦ (Value.str t, ObjectType.string)
  ]
]

pub create_object_from_value-typed :
    (env : Env) (now : ℤ) (t : Str) (d : ℤ) (s : Store)
    → create_object_from_value env now t d s ≡ new_obj now (typed env t).0 d (typed env t).1 s
unfolding create_object_from_value
create_object_from_value-typed env now t d s = ground arith

abbrev pub prior_expiry : Option Entry → Option (Option ℤ)
prior_expiry none = none
prior_expiry (some e) = some e.expiry

abbrev pub is_hidden : Option Entry → Bool
is_hidden none = true
is_hidden (some _) = false

-- Whether XX or NX keeps SET from setting a key that shows this.
abbrev pub is_blocked : ParamMap → Option Entry → Bool
is_blocked m w = has xx m && is_hidden w || has nx m && not (is_hidden w)

-- What a key shows after a SET that is not blocked.
abbrev pub set_entry : Env → ℤ → Str → ParamMap → ℤ → Option Entry → Option Entry
set_entry env now value m d w =
    put_new now (typed env value).0 (typed env value).1 d (has keepttl m) (prior_expiry w)

abbrev entry_of : ℕ → Store → Entry
entry_of r s = record {
  value = (s.objs r).value;
  type = (s.objs r).type;
  expiry = Table.get r s.expires;
}

-- The right side of set_value-view, by what the other keys show.
abbrev both : Str → Str → ParamMap → Option Entry → Option Entry → Option Entry → Option Entry
both key j m set w x = if is_blocked m w then x else if str_beq key j then set else x

replaced-of_none : (k : Str) (s : Store) → Table.get k s.store ≡ none → replaced k s ≡ none
replaced-of_none k s h = ground (arith, h)

get-delete_key :
    (k : Str) (r : ℕ) (s : Store) → Table.get k (delete_key del_cmd k (some r) s).1.store ≡ none
get-delete_key k r s =
    ap (Table.get k) (delete_key-SameTables del_cmd k s r).store
    ∙ ground (arith, get-delete k k s.store, str_beq_iff k k)

room-delete_key :
    (cmd k : Str) (r : ℕ) (s : Store) → HasRoom s → HasRoom (delete_key cmd k (some r) s).1
unfolding delete_key notify_watch_manager
room-delete_key cmd k r s room = ground (arith, -ℤ_parts s.num_keys (pos 1))

replaced-touch_obj :
    (now : ℤ) (k : Str) (r p : ℕ) (s : Store)
    → Table.get k s.store ≡ some p
    → replaced k (touch_obj now r s) ≡ some (Table.get p s.expires)
unfolding touch_obj write_obj
replaced-touch_obj now k r p s h = ground (arith, h)

module _ (env : Env) (now : ℤ) (key value : Str) (m : ParamMap) (d : ℤ) (j : Str) where
  -- After the lookup, with `w` what the key shows.
  set_found-view :
      (w : Option Entry) (o : Option ℕ) (s : Store)
      → IsValid s
      → HasRoom s
      → is_nil o ≡ is_hidden w
      → replaced key s ≡ prior_expiry w
      → view now j (set_found env now key value m d o s) ≡ (
          if is_blocked m w
          then view now j s
          else if str_beq key j
          then set_entry env now value m d w
          else view now j s)
  unfolding set_found new_obj
  set_found-view w o s v room same prior = elim (Bool-cases (has xx m && is_hidden w)) [
    | inl e ↦ rw (same, e) refl
    | inr e ↦ elim (Bool-cases (has nx m && not (is_hidden w))) [
      | inl f ↦ rw (same, e) (rw f refl)
      | inr f ↦ rw (same, e) (rw f (set-view w s v room prior))
    ]
  ]
    where
      set-view :
          (w : Option Entry) (s : Store)
          → IsValid s
          → HasRoom s
          → replaced key s ≡ prior_expiry w
          → let p = create_object_from_value env now value d s in
            view now j
              (put_helper now key p.0 (record { keep_ttl = has keepttl m; put_cmd = set_cmd }) p.1)
            ≡ (if str_beq key j then set_entry env now value m d w else view now j s)
      set-view w s v room prior =
          ap
            (λ p.
              view now j (
                put_helper now key p.0 (record { keep_ttl = has keepttl m; put_cmd = set_cmd })
                  p.1))
            (create_object_from_value-typed env now value d s)
          ∙ put_fresh-view now d (typed env value).0 (typed env value).1 s v key j
              (record { keep_ttl = has keepttl m; put_cmd = set_cmd }) (λ _. room)
          ∙ ap
              (λ q.
                if str_beq key j
                then put_new now (typed env value).0 (typed env value).1 d (has keepttl m) q
                else view now j s)
              prior

-- SET on a well-formed store with room: blocked by XX or NX it changes nothing a client sees;
-- else its key shows the typed value with the expiry time of the options or under KEEPTTL the one
-- it had, and no other key changes.
pub set_value-view :
    (env : Env) (now : ℤ) (key value : Str) (m : ParamMap) (d : ℤ) (j : Str) (s : Store)
    → IsValid s
    → HasRoom s
    → view now j (set_value env now key value m d s) ≡ (
        if is_blocked m (view now key s)
        then view now j s
        else if str_beq key j
        then set_entry env now value m d (view now key s)
        else view now j s)
unfolding set_value get
set_value-view env now key value m d j s v room = by_lookup (get_helper-Lookup now key true s)
  where
    by_lookup :
        {o : Option ℕ × Store}
        → Lookup now key true s o
        → view now j (set_found env now key value m d o.0 o.1) ≡ (
            if is_blocked m (view now key s)
            then view now j s
            else if str_beq key j
            then set_entry env now value m d (view now key s)
            else view now j s)
    by_lookup (absent f) =
        let h = Lookup-view {now = now} {k = key} {touch = true} {s = s} j (absent f) v in
        set_found-view env now key value m d j (view now key s) none s v room
          (sym (ap is_hidden (h.1))) (ground (arith, h.1))
    by_lookup (gone r f x) =
        let s' = (delete_key del_cmd key (some r) s).1 in
        let h = Lookup-view {now = now} {k = key} {touch = true} {s = s} j (gone r f x) v in
        set_found-view env now key value m d j (view now key s) none s'
          (delete_key-IsValid del_cmd key r s v f) (room-delete_key del_cmd key r s room)
          (sym (ap is_hidden (h.1)))
          (replaced-of_none key s' (get-delete_key key r s) ∙ sym (ap prior_expiry (h.1)))
        ∙ ap (both key j m (set_entry env now value m d (view now key s)) (view now key s)) (h.0)
    by_lookup (found r f x) =
        let s' = touch_obj now r s in
        let h = Lookup-view {now = now} {k = key} {touch = true} {s = s} j (found r f x) v in
        let e : view now key s ≡ some (entry_of r s) =
          ground (arith, has_expired-eq-is_past now r s) in
        set_found-view env now key value m d j (view now key s) (some r) s'
          (touch_obj-IsValid now r s v) (unfold touch_obj write_obj in room) (sym (ap is_hidden e))
          (replaced-touch_obj now key r r s f ∙ sym (ap prior_expiry e))
        ∙ ap (both key j m (set_entry env now value m d (view now key s)) (view now key s)) (h.0)
