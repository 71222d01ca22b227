-- ===== src/Cmd/Hash/Laws.antt =====
-- HSET's loop over its pairs (internal/cmd/cmd_hset.go).
use dice_db_distributed_syst.Prelude.{
  ◌+◌, ◌≡◌, refl, ap, ◌∙◌, inl, inr, Option, some, List, [], ◌∷◌, arith, if◌then◌else◌,
  Option-cases, length, Str, str_beq, nat_eq, str_eq,
}
use dice_db_distributed_syst.Table.{load, upsert}
use dice_db_distributed_syst.Table.Laws.{load-upsert, length-upsert}
use dice_db_distributed_syst.Cmd.Hash.{SsMap, hset_loop}

-- The last value that a list of pairs gives a field, or else the value before.
abbrev pub last_value : Str → List Str → Option Str → Option Str
last_value field (k ∷ v ∷ kvs) before =
    last_value field kvs (if str_beq k field then some v else before)
last_value field _ before = before

-- HSET sets every field to the last value that its pairs give it and leaves the other fields, and
-- the number it answers is the number of fields by which the map has grown.
pub hset_loop-load :
    (kvs : List Str) (h : SsMap) (field : Str)
    → (load field (hset_loop kvs h).1 ≡ last_value field kvs (load field h))
      × (length (hset_loop kvs h).1 ≡ (hset_loop kvs h).0 + length h)
unfolding hset_loop
hset_loop-load [] h field = (refl, omega arith)
hset_loop-load (k ∷ []) h field = (refl, omega arith)
hset_loop-load (k ∷ v ∷ kvs) h field =
    let r = hset_loop-load kvs (upsert k v h) field in
    (
      r.0 ∙ ap (last_value field kvs) (load-upsert k field v h),
      elim (Option-cases (load k h)) [
        | inl e ↦ rw (e, hset_loop) (ground (arith, r.1, length-upsert k v h))
        | inr (w, e) ↦ rw (e, hset_loop) (ground (arith, r.1, length-upsert k v h))
      ],
    )
