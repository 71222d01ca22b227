-- ===== src/Store/Access.antt =====
-- The lookups of internal/store/store.go. A pointer that a lookup gives is none for nil.
use dice_db_distributed_syst.Prelude.{
  ℕ, Bool, true, false, Option, none, some, List, [], ◌∷◌, if◌then◌else◌, Str, nat_eq, str_eq,
}
use dice_db_distributed_syst.Prelude.Int.{ℤ}
use dice_db_distributed_syst.Table
use dice_db_distributed_syst.Store.State.{Store, touch_obj}
use dice_db_distributed_syst.Store.Expiry.{has_expired}
use dice_db_distributed_syst.Store.Delete.{delete_key, del_cmd}

-- getHelper: an expired key is deleted on the way.
unfoldable pub get_helper : ℤ → Str → Bool → Store → Option ℕ × Store
get_helper now k touch s = elim (Table.get k s.store) [
  | none ↦ (none, s)
  | some r ↦
      if has_expired now r s
      then (none, (delete_key del_cmd k (some r) s).1)
      else if touch
      then (some r, touch_obj now r s)
      else (some r, s)
]

unfoldable pub get : ℤ → Str → Store → Option ℕ × Store
unfolding get_helper
get now k s = get_helper now k true s

unfoldable pub get_no_touch : ℤ → Str → Store → Option ℕ × Store
unfolding get_helper
get_no_touch now k s = get_helper now k false s

unfoldable pub get_all : ℤ → List Str → Store → List (Option ℕ) × Store
unfolding get_helper
get_all now [] s = ([], s)
get_all now (k ∷ ks) s =
    let (v, s') = get_helper now k true s in let (vs, s'') = get_all now ks s' in (v ∷ vs, s'')

unfoldable pub get_del : ℤ → Str → Str → Store → Option ℕ × Store
get_del now cmd k s = elim (Table.get k s.store) [
  | none ↦ (none, s)
  | some r ↦
      let s' = (delete_key cmd k (some r) s).1 in (if has_expired now r s then none else some r, s')
]

-- Keys; `path_match` is path.Match, none for a malformed pattern. The keys found so far are
-- returned beside an error.
unfoldable pub keys_loop : (Str → Str → Option Bool) → Str → List (Str × ℕ) → List Str × Bool
keys_loop path_match p [] = ([], false)
keys_loop path_match p ((k, _) ∷ l) =
    let (ks, failed) = keys_loop path_match p l in
    elim (path_match p k) [
      | none ↦ ([], true)
      | some found ↦ (if found then k ∷ ks else ks, failed)
    ]

unfoldable pub keys : (Str → Str → Option Bool) → Str → Store → List Str × Bool
unfolding keys_loop
keys path_match p s = keys_loop path_match p s.store.m
