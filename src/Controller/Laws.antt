-- ===== src/Controller/Laws.antt =====
-- How long the name of a Job is.
use Prim.Native.Char.{Char, len_utf8}
use Prim.Native.Nat.{Ordering, compare}
use Prim.Native.String.{[], ◌∷◌, len, slice, fits}
use Prim.Native.String.len
use Prim.Native.String.slice
use text.Mathlib.TextPositions.{len-append}
use pbs_k8s_operator.Base.{
  ℕ, ◌+◌, ◌-◌, ◌≤◌, String, Bool, ◌≡◌, refl, ap, ◌∙◌, arith, Bool-cases, leb, ◌&&◌, inl, inr,
}
use pbs_k8s_operator.Base.Text.{◌+++◌, trim_end, is_empty}
use pbs_k8s_operator.Controller.{NameHash, is_dash, job_name}

fits-le :
    (o : Ordering) (c : Char) (r : String) (k : ℕ)
    → compare (len_utf8 c) k ≡ o
    → len r ≤ k - len_utf8 c
    → len (fits o c r) ≤ k
fits-le Ordering.lt c r k e h = ground (arith, len.cons c r)
fits-le Ordering.eq c r k e h = ground (arith, len.cons c r)
fits-le Ordering.gt c r k e h = ground (arith, len.nil)

-- A part from the start is no longer than was asked for.
slice-le : (s : String) (k : ℕ) → len (slice s 0 k) ≤ k
slice-le [] k = rw (slice.nil 0 k, len.nil) (omega arith)
slice-le (c ∷ s) k = rw (slice.cons-zero c s k) (
    fits-le (compare (len_utf8 c) k) c (slice s 0 (k - len_utf8 c)) k refl
      (slice-le s (k - len_utf8 c)))

trim_end-le : (p : Char → Bool) (s : String) → len (trim_end p s) ≤ len s
unfolding trim_end
trim_end-le p [] = omega arith
trim_end-le p (c ∷ s) = elim (Bool-cases (is_empty (trim_end p s) && p c)) [
  | inl e ↦ rw (e, len.nil) (omega arith)
  | inr e ↦ rw (e, len.cons c s, len.cons c (trim_end p s)) (omega (arith, trim_end-le p s))
]

-- Where a hash is printed with eight characters, the name of a Job fits into the 63 bytes of a DNS
-- label, however long the names are that it is made of.
pub job_name-le :
    (h : NameHash) (backup node : String)
    → ((n : ℕ) → len (h.hex08 n) ≡ 8)
    → len (job_name h backup node) ≤ 63
unfolding job_name
job_name-le h backup node eight =
    let full : String = backup +++ "-" +++ node in
    let suffix : String = "-" +++ h.hex08 (h.fnv32a full) in
    let nine : len suffix ≡ 9 =
      len-append "-" (h.hex08 (h.fnv32a full))
      ∙ ap (λ (n : ℕ). len "-" + n) (eight (h.fnv32a full)) in
    elim (Bool-cases (leb (len full) 63)) [
      | inl e ↦ rw e (ground (arith, e))
      | inr e ↦
          rw (e, len-append (trim_end is_dash (slice full 0 (63 - len suffix))) suffix, nine)
            (omega (arith, trim_end-le is_dash (slice full 0 54), slice-le full 54))
    ]
