-- ===== src/Cmd/Expire/Laws.antt =====
-- EXPIRE and TTL (internal/cmd/cmd_expire.go, cmd_ttl.go) against the view of a store.
use dice_db_distributed_syst.Prelude.{
  ℕ, ◌≡◌, sym, ap, ◌∙◌, inl, inr, true, Option, none, some, [], ◌∷◌, arith, if◌then◌else◌,
  Option-cases, Str, str_beq, nat_eq, str_eq,
}
use dice_db_distributed_syst.Prelude.Int.{ℤ, pos, negsuc, ◌+ℤ◌, ◌-ℤ◌, ◌*ℤ◌, leb_ℤ, wrap64, div_ℤ}
use dice_db_distributed_syst.Table
use dice_db_distributed_syst.Store.State.{Store, touch_obj}
use dice_db_distributed_syst.Store.Access.{get}
use dice_db_distributed_syst.Store.Invariant.{IsValid}
use dice_db_distributed_syst.Store.Invariant.Access.{
  Lookup, absent, gone, found, get_helper-Lookup, get_helper-IsValid,
}
use dice_db_distributed_syst.Store.View.{Entry, view, view_at}
use dice_db_distributed_syst.Store.View.Basic.{Lookup-view, get_helper-view, has_expired-eq-is_past}
use dice_db_distributed_syst.Store.View.Expire.{after_expire, evaluate_and_set_expiry-view}
use dice_db_distributed_syst.Wire.{Response, done}
use dice_db_distributed_syst.Cmd.Expire.{expiry_reply, expire_found, expire_in, ttl_reply, eval_ttl}

-- The seconds that TTL answers for what a key shows; -2 is for no key, -1 for no expiry time.
abbrev pub ttl_of : ℤ → Option Entry → ℤ
ttl_of now none = negsuc 1
ttl_of now (some e) = elim e.expiry [ none ↦ negsuc 0 | some t ↦ div_ℤ (wrap64 (t -ℤ now)) 1000 ]

abbrev entry_of : ℕ → Store → Option ℤ → Entry
entry_of r s t = record { value = (s.objs r).value; type = (s.objs r).type; expiry = t }

-- TTL on a well-formed store answers for what its key shows and changes nothing that a client can
-- see.
pub eval_ttl-view :
    (now : ℤ) (key j : Str) (s : Store)
    → IsValid s
    → let o = eval_ttl now (key ∷ []) s in
      (o.0 ≡ done (Response.number (ttl_of now (view now key s)))) × (view now j o.1 ≡ view now j s)
unfolding eval_ttl get touch_obj ttl_reply
eval_ttl-view now key j s v = by_lookup (get_helper-Lookup now key true s)
  where
    by_lookup :
        {o : Option ℕ × Store}
        → Lookup now key true s o
        → (ttl_reply now o.0 o.1 ≡ done (Response.number (ttl_of now (view now key s))))
          × (view now j o.1 ≡ view now j s)
    by_lookup l = (by_found l, (Lookup-view j l v).0)
      where
        by_found :
            {o : Option ℕ × Store}
            → Lookup now key true s o
            → ttl_reply now o.0 o.1 ≡ done (Response.number (ttl_of now (view now key s)))
        by_found (absent f) =
            let h = Lookup-view {now = now} {k = key} {touch = true} {s = s} j (absent f) v in
            sym (ap (λ w. done (Response.number (ttl_of now w))) (h.1))
        by_found (gone r f x) =
            let h = Lookup-view {now = now} {k = key} {touch = true} {s = s} j (gone r f x) v in
            sym (ap (λ w. done (Response.number (ttl_of now w))) (h.1))
        by_found (found r f x) = elim (Option-cases (Table.get r s.expires)) [
          | inl e ↦
              let h : view now key s ≡ some (entry_of r s none) =
                ground (arith, has_expired-eq-is_past now r s) in
              rw (e, ttl_reply) (sym (ap (λ w. done (Response.number (ttl_of now w))) h))
          | inr (t, e) ↦
              let h : view now key s ≡ some (entry_of r s (some t)) =
                ground (arith, has_expired-eq-is_past now r s) in
              rw (e, ttl_reply) (sym (ap (λ w. done (Response.number (ttl_of now w))) h))
        ]

-- EXPIRE without options on a key of a well-formed store that shows an entry: the answer is that
-- it was changed; the new time is the clock plus the seconds in milliseconds as int64, and where
-- it is past the key is gone; no other key changes.
pub expire_in-view :
    (now seconds : ℤ) (key j : Str) (e : Entry) (s : Store)
    → IsValid s
    → view now key s ≡ some e
    → let t = wrap64 (now +ℤ wrap64 (seconds *ℤ pos 1000)) in
      let o = expire_in now key seconds [] s in
      (o.0 ≡ done (Response.changed true))
      × (view now j o.1 ≡ (
          if str_beq key j
          then if leb_ℤ t now then none else some (record e { expiry = some t })
          else view now j s))
unfolding expire_in get expire_found
expire_in-view now seconds key j e s v shown =
    let g = get_helper-view now key key true s v in
    by_found (get now key s).0 (get now key s).1 (get_helper-IsValid now key true s v)
      (λ i. (get_helper-view now key i true s v).0) (sym shown ∙ g.1)
  where
    by_found :
        (o : Option ℕ) (s' : Store)
        → IsValid s'
        → ((i : Str) → view now i s' ≡ view now i s)
        → some e ≡ view_at now s.objs s.expires o
        → let t = wrap64 (now +ℤ wrap64 (seconds *ℤ pos 1000)) in
          let p = expire_found now key seconds [] o s' in
          (p.0 ≡ done (Response.changed true))
          × (view now j p.1 ≡ (
              if str_beq key j
              then if leb_ℤ t now then none else some (record e { expiry = some t })
              else view now j s))
    by_found none s' v' same h = cc
    by_found (some r) s' v' same h =
        let t = wrap64 (now +ℤ wrap64 (seconds *ℤ pos 1000)) in
        let q = evaluate_and_set_expiry-view now t [] key j s' v' in
        let w = same key ∙ shown in
        (
          ap expiry_reply (q.0 ∙ ap (λ x. (after_expire x now t []).0) w),
          q.1
              ∙ ap (λ x. if str_beq key j then (after_expire x now t []).1 else view now j s') w
              ∙ ap (λ x. if str_beq key j then (after_expire (some e) now t []).1 else x) (same j),
        )
