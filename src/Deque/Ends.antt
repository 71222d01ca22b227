-- ===== src/Deque/Ends.antt =====
-- RPop of internal/eval/deque.go takes off what RPush has put on.
use dice_db_distributed_syst.Prelude.{
  ℕ, ◌+◌, ◌^◌, ◌<◌, ◌≡◌, refl, sym, ap, ◌∙◌, inl, inr, false, none, some, [], ◌∷◌, ◌++◌, arith, ltb,
  leb, ◌==◌, if◌then◌else◌, if_both, Bool-cases, Option-cases, length, drop, take, length-append,
  Str, nat_eq, str_eq,
}
use dice_db_distributed_syst.Prelude.Int.{ℤ, pos, negsuc}
use mathlib.Core.List.{append_assoc, append-nil}
use dice_db_distributed_syst.Strconv.{parse_int}
use dice_db_distributed_syst.Strconv.RoundTrip.{parse_int-IsInt64}
use dice_db_distributed_syst.Varint.{decode_uint, get_encode_uint_size}
use dice_db_distributed_syst.Deque.{
  rev_onto, encode_uint_rev, str_header, int_bytes, is_in, decode_str, encode_deq_str,
  encode_deq_int, encode_deq_entry, decode_deq_entry,
}
use dice_db_distributed_syst.Deque.Codec.{
  canonical, take-append, decode_str-append, decode-str_header, decode-int_bytes,
}
use dice_db_distributed_syst.Deque.Basic.{DequeBasic, r_push, r_pop, popped, scan_back}
use dice_db_distributed_syst.Deque.Refines.{IsShort, drop-append}
use dice_db_distributed_syst.Deque.Backwards.{Reads-backlen, rev_onto-twice}

-- An entry before the length at its end.
abbrev entry_body : Str → Str
entry_body x =
    if leb 21 (length x)
    then str_header (length x) ++ x
    else elim (parse_int x) [ none ↦ str_header (length x) ++ x | some v ↦ int_bytes v ]

abbrev backlen : Str → Str
backlen b = encode_uint_rev (get_encode_uint_size (length b)) (length b)

str-backlen :
    (x : Str)
    → encode_deq_str x ≡ str_header (length x) ++ x ++ backlen (str_header (length x) ++ x)
unfolding encode_deq_str
str-backlen x =
    ap (λ k. str_header (length x) ++ x ++ encode_uint_rev (get_encode_uint_size k) k)
      (sym (length-append (str_header (length x)) x))

abbrev Ended : Str → Type 0
Ended b = b ++ length b ∷ [] ≡ b ++ backlen b

int-backlen : (v : ℤ) → encode_deq_int v ≡ int_bytes v ++ backlen (int_bytes v)
unfolding encode_deq_int int_bytes encode_uint_rev get_encode_uint_size
int-backlen v = if_both Ended (is_in (pos 0) (pos 127) v) refl (
    if_both Ended (is_in (negsuc 4095) (pos 4095) v) refl (
      if_both Ended (is_in (negsuc 32767) (pos 32767) v) refl (
        if_both Ended (is_in (negsuc 8388607) (pos 8388607) v) refl
          (if_both Ended (is_in (negsuc 2147483647) (pos 2147483647) v) refl refl))))

entry-backlen : (x : Str) → encode_deq_entry x ≡ entry_body x ++ backlen (entry_body x)
unfolding encode_deq_entry
entry-backlen x = elim (Bool-cases (leb 21 (length x))) [
  | inl e ↦ rw e (str-backlen x)
  | inr e ↦ elim (Option-cases (parse_int x)) [
    | inl g ↦ rw (e, g) (str-backlen x)
    | inr (v, g) ↦ rw (e, g) (int-backlen v)
  ]
]

str-short : (x : Str) → IsShort x → length (str_header (length x) ++ x) < 2 ^ 35
unfolding str_header
str-short x h = ground (arith, length-append (str_header (length x)) x)

int-short : (v : ℤ) → length (int_bytes v) < 2 ^ 35
unfolding int_bytes
int-short v = ground arith

entry-short : (x : Str) → IsShort x → length (entry_body x) < 2 ^ 35
entry-short x h = elim (Bool-cases (leb 21 (length x))) [
  | inl e ↦ rw e (str-short x h)
  | inr e ↦ elim (Option-cases (parse_int x)) [
    | inl g ↦ rw (e, g) (str-short x h)
    | inr (v, g) ↦ rw (e, g) (int-short v)
  ]
]

-- The body alone is enough for the decoding.
decode-str_body :
    (x : Str) → IsShort x → (n : ℕ) × (decode_deq_entry (str_header (length x) ++ x) ≡ some (x, n))
decode-str_body x h =
    let header = str_header (length x) in
    (
      length header + length x + get_encode_uint_size (length header + length x),
      decode-str_header (length x) x h
          ∙ ap (decode_str (length header) (length x)) (sym (append-nil x))
          ∙ decode_str-append (length header) x [],
    )

decode-entry_body :
    (x : Str) → IsShort x → (n : ℕ) × (decode_deq_entry (entry_body x) ≡ some (canonical x, n))
decode-entry_body x h = elim (Bool-cases (leb 21 (length x))) [
  | inl e ↦ rw e (decode-str_body x h)
  | inr e ↦ elim (Option-cases (parse_int x)) [
    | inl g ↦ rw (e, g) (decode-str_body x h)
    | inr (v, g) ↦
        rw (e, g)
          (
            length (int_bytes v) + 1,
            ap decode_deq_entry (sym (append-nil (int_bytes v)))
                ∙ decode-int_bytes v [] (parse_int-IsInt64 x v g),
          )
  ]
]

rev_onto-acc : (a acc : Str) → rev_onto a acc ≡ rev_onto a [] ++ acc
rev_onto-acc [] acc = refl
rev_onto-acc (x ∷ a) acc =
    rev_onto-acc a (x ∷ acc)
    ∙ sym (append_assoc (rev_onto a []) (x ∷ []) acc)
    ∙ ap (λ l. l ++ acc) (sym (rev_onto-acc a (x ∷ [])))

rev_onto-append : (a b acc : Str) → rev_onto (a ++ b) acc ≡ rev_onto b (rev_onto a acc)
rev_onto-append [] b acc = refl
rev_onto-append (x ∷ a) b acc = rev_onto-append a b (x ∷ acc)

length-rev_onto : (a acc : Str) → length (rev_onto a acc) ≡ length a + length acc
length-rev_onto [] acc = omega arith
length-rev_onto (x ∷ a) acc = omega (arith, length-rev_onto a (x ∷ acc))

-- The body and the bytes of its length, from the end of a buffer.
reversed :
    (buf body : Str)
    → rev_onto (buf ++ (body ++ backlen body)) []
      ≡ rev_onto (backlen body) [] ++ (rev_onto body [] ++ rev_onto buf [])
reversed buf body =
    rev_onto-append buf (body ++ backlen body) []
    ∙ rev_onto-append body (backlen body) (rev_onto buf [])
    ∙ rev_onto-acc (backlen body) (rev_onto body (rev_onto buf []))
    ∙ ap (λ l. rev_onto (backlen body) [] ++ l) (rev_onto-acc body (rev_onto buf []))

pub r_pop-r_push :
    (x : Str) (q : DequeBasic) → IsShort x → r_pop (r_push x q) ≡ popped (canonical x) q
unfolding r_pop r_push decode_uint
r_pop-r_push x q h =
    let body = entry_body x in
    let bs = rev_onto (backlen body) [] in
    let r = Reads-backlen (length body) (entry-short x h) in
    let before = rev_onto body [] ++ rev_onto q.buf [] in
    let scanned : scan_back (rev_onto (q.buf ++ encode_deq_entry x) []) ≡ some (bs, before) =
      ap (λ e. scan_back (rev_onto (q.buf ++ e) [])) (entry-backlen x)
      ∙ ap scan_back (reversed q.buf body)
      ∙ r.scans before in
    let full : (q.length + 1 == 0) ≡ false = ground arith in
    let n : decode_uint bs ≡ length body =
      r.decodes 0 1 (omega (arith, entry-short x h)) ∙ omega arith in
    let size : length (rev_onto body []) ≡ length body = length-rev_onto body [] ∙ omega arith in
    let room : ltb (length before) (length body) ≡ false =
      ground (arith, length-append (rev_onto body []) (rev_onto q.buf [])) in
    let (m, decoded) = decode-entry_body x h in
    let taken : rev_onto (take (length body) before) [] ≡ body =
      ap (λ k. rev_onto (take k before) []) (sym size)
      ∙ ap (λ l. rev_onto l []) (take-append (rev_onto body []) (rev_onto q.buf []))
      ∙ rev_onto-twice body [] in
    let left : rev_onto (drop (length body) before) [] ≡ q.buf =
      ap (λ k. rev_onto (drop k before) []) (sym size)
      ∙ ap (λ l. rev_onto l []) (drop-append (rev_onto body []) (rev_onto q.buf []))
      ∙ rev_onto-twice q.buf [] in
    rw (full, scanned, n, room, taken, decoded, n, left)
      (ap (λ k. popped (canonical x) (record { length = k; buf = q.buf })) (omega arith))
