-- ===== src/Store/View/Create.antt =====
-- NewObj (internal/store/store.go) against the view of a store: a new object shows nowhere until a key
-- gets it.
use dice_db_distributed_syst.Prelude.{
  ℕ, ◌≡◌, refl, sym, ap, ◌∙◌, inl, inr, Bool, true, false, Option, none, some, arith, ltb,
  if◌then◌else◌, ==_iff, Option-cases, Str, str_beq, nat_eq, str_eq,
}
use dice_db_distributed_syst.Prelude.Int.{ℤ, pos, ◌+ℤ◌, ltb_ℤ, leb_ℤ, wrap64}
use mathlib.Core.Path.{subst}
use dice_db_distributed_syst.Table
use dice_db_distributed_syst.Table.Laws.{get-put}
use dice_db_distributed_syst.Object.{ObjectType, Value}
use dice_db_distributed_syst.Store.State.{
  Store, PutOptions, new_obj, write_obj, set_expiry, touch_obj, get_key_count,
}
use dice_db_distributed_syst.Store.Evict.{should_evict, victims}
use dice_db_distributed_syst.Store.Put.{put_helper}
use dice_db_distributed_syst.Store.Fields.{is_victim}
use dice_db_distributed_syst.Store.Invariant.{IsValid}
use dice_db_distributed_syst.Store.Invariant.Basic.{new_obj-IsValid}
use dice_db_distributed_syst.Store.View.{Entry, view, is_past}
use dice_db_distributed_syst.Store.View.Write.{
  IsFree, ttl_after, replaced, is_evicted, put_entry, put_helper-view, no_victims,
}

-- The expiry time of a new object: none for a negative duration.
abbrev pub own_ttl : ℤ → ℤ → Option ℤ
own_ttl now d = if leb_ℤ (pos 0) d then some (wrap64 (now +ℤ d)) else none

-- The store has room for one more key.
abbrev pub HasRoom : Store → Type 0
HasRoom s = ltb_ℤ s.num_keys (pos s.strategy.max_keys) ≡ true

abbrev expiry_of : Option Entry → Option (Option ℤ)
expiry_of none = none
expiry_of (some e) = some e.expiry

-- What a key shows after a put of a new object.
abbrev pub put_new : ℤ → Value → ObjectType → ℤ → Bool → Option (Option ℤ) → Option Entry
put_new now value type d keep prior =
    let t = ttl_after keep (own_ttl now d) prior in
    if is_past now t then none else some (record { value = value; type = type; expiry = t })

should_evict-room : (s : Store) → HasRoom s → ltb 0 (should_evict s) ≡ false
unfolding should_evict get_key_count
should_evict-room s room = ground arith

module _ (now d : ℤ) (value : Value) (type : ObjectType) (s : Store) (v : IsValid s) where
  abbrev fresh : Store
  fresh = (new_obj now value d type s).1

  store-fresh : fresh.store ≡ s.store
  unfolding new_obj write_obj set_expiry
  store-fresh = ground arith

  pub IsFree-fresh : IsFree s.next fresh
  IsFree-fresh j h =
      let e : Table.get j s.store ≡ some s.next = sym (ap (Table.get j) store-fresh) ∙ h in
      absurd (ground (arith, v.allocated j s.next))

  time-fresh : Table.get s.next fresh.expires ≡ own_ttl now d
  unfolding new_obj write_obj set_expiry
  time-fresh = elim (Option-cases (Table.get s.next s.expires)) [
    | inl e ↦
        ground (arith, get-put s.next s.next (wrap64 (now +ℤ d)) s.expires, ==_iff s.next s.next)
    | inr (t, e) ↦ absurd (ground (arith, v.dated s.next t))
  ]

  pub view-fresh : (j : Str) → view now j fresh ≡ view now j s
  unfolding new_obj write_obj set_expiry
  view-fresh j = elim (Option-cases (Table.get j s.store)) [
    | inl e ↦ ground arith
    | inr (p, e) ↦ ground (
      arith,
      v.allocated j p,
      ==_iff p s.next,
      ==_iff s.next p,
      get-put s.next p (wrap64 (now +ℤ d)) s.expires,
    )
  ]

  replaced-fresh : (key : Str) → replaced key fresh ≡ replaced key s
  unfolding new_obj write_obj set_expiry
  replaced-fresh key = elim (Option-cases (Table.get key s.store)) [
    | inl e ↦ ground arith
    | inr (p, e) ↦
        ground (
          arith,
          v.allocated key p,
          ==_iff s.next p,
          get-put s.next p (wrap64 (now +ℤ d)) s.expires,
        )
  ]

  shown-fresh : ((fresh.objs s.next).value ≡ value) × ((fresh.objs s.next).type ≡ type)
  unfolding new_obj write_obj set_expiry
  shown-fresh = ground (arith, ==_iff s.next s.next)

  room-fresh : (r : ℕ) → HasRoom s → HasRoom (touch_obj now r fresh)
  unfolding new_obj write_obj set_expiry touch_obj
  room-fresh r room = ground arith

  store-touched :
      (r : ℕ) (key : Str) → Table.get key (touch_obj now r fresh).store ≡ Table.get key s.store
  unfolding touch_obj
  store-touched r key = ap (Table.get key) store-fresh

  not_evicted :
      (key j : Str)
      → (Table.get key s.store ≡ none → HasRoom s)
      → is_evicted key j (touch_obj now s.next fresh) ≡ false
  not_evicted key j room = elim (Option-cases (Table.get key s.store)) [
    | inl e ↦
        let t = touch_obj now s.next fresh in
        let n =
          no_victims (should_evict t) j t (should_evict-room t (room-fresh s.next (room e))) in
        subst
          (λ (o : Option ℕ).
            elim o [ none ↦ is_victim j (victims (should_evict t) t) | some _ ↦ false ] ≡ false)
          (sym (store-touched s.next key ∙ e)) n
    | inr (p, e) ↦
        let t = touch_obj now s.next fresh in
        subst
          (λ (o : Option ℕ).
            elim o [ none ↦ is_victim j (victims (should_evict t) t) | some _ ↦ false ] ≡ false)
          (sym (store-touched s.next key ∙ e)) refl
  ]

  entry-fresh :
      (key : Str) (options : PutOptions)
      → put_entry now key s.next options fresh
        ≡ put_new now value type d options.keep_ttl (replaced key s)
  entry-fresh key options = λ i.
      let t = ttl_after options.keep_ttl (time-fresh i) (replaced-fresh key i) in
      if is_past now t
      then none
      else some (record { value = shown-fresh.0 i; type = shown-fresh.1 i; expiry = t })

  -- A new object put under a key of a well-formed store, with room if the key is new, is what the
  -- key shows, and no other key changes.
  pub put_fresh-view :
      (key j : Str) (options : PutOptions)
      → (Table.get key s.store ≡ none → HasRoom s)
      → view now j (put_helper now key s.next options fresh) ≡ (
          if str_beq key j
          then put_new now value type d options.keep_ttl (replaced key s)
          else view now j s)
  put_fresh-view key j options room =
      put_helper-view now key j s.next options fresh (new_obj-IsValid now value d type s v)
        IsFree-fresh
      ∙ (λ i.
          if str_beq key j
          then entry-fresh key options i
          else if not_evicted key j room i
          then none
          else view-fresh j i)
