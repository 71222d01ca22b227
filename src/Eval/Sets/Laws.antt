-- ===== src/Eval/Sets/Laws.antt =====
-- SADD and SREM of internal/eval/store_eval.go on sets.
use dice_db_distributed_syst.Prelude.{
  ℕ, ◌+◌, ◌≡◌, refl, sym, ap, ◌∙◌, inl, inr, Bool, true, false, not, ◌&&◌, ◌||◌, List, [], ◌∷◌,
  ◌++◌, arith, Bool-cases, length, length-append, Str, str_beq, str_beq_iff, nat_eq, str_eq,
}
use dice_db_distributed_syst.Eval.Sets.{has_member, delete_member, sadd_loop, srem_loop}

-- No member twice.
abbrev pub IsSetList : List Str → Type 0
IsSetList [] = Unit
IsSetList (x ∷ l) = (has_member x l ≡ false) × IsSetList l

has_member-snoc :
    (x y : Str) (l : List Str) → has_member x (l ++ y ∷ []) ≡ (has_member x l || str_beq y x)
unfolding has_member
has_member-snoc x y [] = ground arith
has_member-snoc x y (z ∷ l) = ground (arith, has_member-snoc x y l)

IsSetList-snoc :
    (y : Str) (l : List Str) → IsSetList l → has_member y l ≡ false → IsSetList (l ++ y ∷ [])
unfolding has_member
IsSetList-snoc y [] h e = (refl, tt)
IsSetList-snoc y (z ∷ l) h e =
    let other : str_beq y z ≡ false = ground (arith, str_beq_iff y z, str_beq_iff z y) in
    (has_member-snoc z y l ∙ ground (arith, h.0), IsSetList-snoc y l h.1 (ground arith))

-- What SADD of xs to the members l makes of them, with n counted.
pub record Added (xs l : List Str) (n : ℕ) (l' : List Str) : Type 0 where
  pub distinct : IsSetList l'
  pub members : (x : Str) → has_member x l' ≡ (has_member x l || has_member x xs)
  pub counted : length l' ≡ length l + n

or_false : (a : Bool) → a ≡ (a || false)
or_false true = refl
or_false false = refl

with_present :
    (x y : Str) (ys l : List Str) (b : Bool)
    → has_member y l ≡ true
    → b ≡ (has_member x l || has_member x ys)
    → b ≡ (has_member x l || has_member x (y ∷ ys))
unfolding has_member
with_present x y ys l b e h = elim (Bool-cases (str_beq y x)) [
  | inl q ↦
      let t : has_member x l ≡ true = ap (λ z. has_member z l) (sym ((str_beq_iff y x).0 q)) ∙ e in
      h ∙ rw t refl
  | inr q ↦ h ∙ rw q refl
]

with_new :
    (x y : Str) (ys l : List Str) (b : Bool)
    → b ≡ (has_member x (l ++ y ∷ []) || has_member x ys)
    → b ≡ (has_member x l || has_member x (y ∷ ys))
unfolding has_member
with_new x y ys l b h =
    h
    ∙ ap (λ t. t || has_member x ys) (has_member-snoc x y l)
    ∙ or_assoc (has_member x l) (str_beq y x) (has_member x ys)
  where
    or_assoc : (a b c : Bool) → ((a || b) || c) ≡ (a || (b || c))
    or_assoc true b c = refl
    or_assoc false b c = refl

-- SADD on a set without duplicates leaves one without duplicates whose members are the old ones
-- and the arguments, and answers the number by which the set has grown, however often an argument
-- stands there.
pub sadd_loop-Added :
    (xs l : List Str) → IsSetList l → Added xs l (sadd_loop xs l).0 (sadd_loop xs l).1
unfolding sadd_loop has_member
sadd_loop-Added [] l h = record {
  distinct = h;
  members = λ x. or_false (has_member x l);
  counted = omega arith;
}
sadd_loop-Added (y ∷ ys) l h = elim (Bool-cases (has_member y l)) [
  | inl e ↦
      let a = sadd_loop-Added ys l h in
      rw e (record {
        distinct = a.distinct;
        members = λ x. with_present x y ys l (has_member x (sadd_loop ys l).1) e (a.members x);
        counted = a.counted;
      })
  | inr e ↦
      let a = sadd_loop-Added ys (l ++ y ∷ []) (IsSetList-snoc y l h e) in
      rw e (record {
        distinct = a.distinct;
        members =
            λ x. with_new x y ys l (has_member x (sadd_loop ys (l ++ y ∷ [])).1) (a.members x);
        counted = omega (arith, a.counted, length-append l (y ∷ []));
      })
]

-- SREM: what is left, and how many went.
pub record Removed (xs l : List Str) (n : ℕ) (l' : List Str) : Type 0 where
  pub distinct : IsSetList l'
  pub members : (x : Str) → has_member x l' ≡ (has_member x l && not (has_member x xs))
  pub counted : length l ≡ length l' + n

has_member-delete_member :
    (x y : Str) (l : List Str)
    → has_member x (delete_member y l) ≡ (has_member x l && not (str_beq y x))
unfolding has_member delete_member
has_member-delete_member x y [] = refl
has_member-delete_member x y (z ∷ l) =
    ground
      (arith, has_member-delete_member x y l, str_beq_iff z y, str_beq_iff z x, str_beq_iff y x)

delete_member-same : (y : Str) (l : List Str) → has_member y l ≡ false → delete_member y l ≡ l
unfolding has_member delete_member
delete_member-same y [] h = refl
delete_member-same y (z ∷ l) h = ground (arith, delete_member-same y l)

delete_member-IsSetList :
    (y : Str) (l : List Str)
    → IsSetList l
    → has_member y l ≡ true
    → IsSetList (delete_member y l) × (length l ≡ length (delete_member y l) + 1)
unfolding has_member delete_member
delete_member-IsSetList y [] h e = absurd (ground arith)
delete_member-IsSetList y (z ∷ l) h e = elim (Bool-cases (str_beq z y)) [
  | inl q ↦
      let t : has_member y l ≡ false =
        ap (λ w. has_member w l) (sym ((str_beq_iff z y).0 q)) ∙ h.0 in
      rw (q, delete_member-same y l t) (h.1, omega arith)
  | inr q ↦
      let (d, n) = delete_member-IsSetList y l h.1 (ground arith) in
      rw q ((ground (arith, has_member-delete_member z y l, h.0), d), omega (arith, n))
]

without_absent :
    (x y : Str) (ys l : List Str) (b : Bool)
    → has_member y l ≡ false
    → b ≡ (has_member x l && not (has_member x ys))
    → b ≡ (has_member x l && not (has_member x (y ∷ ys)))
unfolding has_member
without_absent x y ys l b e h = elim (Bool-cases (str_beq y x)) [
  | inl q ↦
      let t : has_member x l ≡ false = ap (λ z. has_member z l) (sym ((str_beq_iff y x).0 q)) ∙ e in
      h ∙ rw t refl
  | inr q ↦ h ∙ rw q refl
]

-- SREM on a set without duplicates leaves one without duplicates whose members are the old ones but
-- for the arguments, and answers the number by which the set has shrunk.
pub srem_loop-Removed :
    (xs l : List Str) → IsSetList l → Removed xs l (srem_loop xs l).0 (srem_loop xs l).1
unfolding srem_loop has_member
srem_loop-Removed [] l h = record {
  distinct = h;
  members = λ x. and_true (has_member x l);
  counted = omega arith;
}
  where
    and_true : (a : Bool) → a ≡ (a && not false)
    and_true true = refl
    and_true false = refl
srem_loop-Removed (y ∷ ys) l h = elim (Bool-cases (has_member y l)) [
  | inl e ↦
      let (d, n) = delete_member-IsSetList y l h e in
      let a = srem_loop-Removed ys (delete_member y l) d in
      rw e (record {
        distinct = a.distinct;
        members = λ x. a.members x ∙ ground (arith, has_member-delete_member x y l);
        counted = omega (arith, a.counted, n);
      })
  | inr e ↦
      let a = srem_loop-Removed ys l h in
      rw e (record {
        distinct = a.distinct;
        members = λ x. without_absent x y ys l (has_member x (srem_loop ys l).1) e (a.members x);
        counted = a.counted;
      })
]
