-- ===== src/Snapshot/Digits.antt =====
-- The digits that strconv.Itoa writes, and strconv.Atoi on them.
use tinydfs_master.Base.{
  ℕ, zero, suc, ◌+◌, ◌*◌, ◌%◌, ◌/◌, ◌≡◌, ◌<◌, refl, ap, ◌∙◌, false, [], ◌∷◌, ◌==◌, ==-ne, nat_eq,
  nat_list_eq, ltb, contains, GoString, arith, Bool-cases, inl, inr,
}
use tinydfs_master.Base.Strings.{itoa, itoa_from}
use tinydfs_master.Snapshot.Text.{atoi, atoi_from}

itoa_from-free :
    (fuel n : ℕ) (acc : GoString)
    → contains acc b'$' ≡ false
    → contains (itoa_from fuel n acc) b'$' ≡ false
unfolding itoa_from
itoa_from-free zero n acc free = free
itoa_from-free (suc fuel) n acc free =
    let digit : (b'0' + n % 10 == b'$') ≡ false = ==-ne (b'0' + n % 10) b'$' (omega arith) in
    let last : (b'0' + n == b'$') ≡ false = ==-ne (b'0' + n) b'$' (omega arith) in
    ground (arith, digit, last, free, itoa_from-free fuel (n / 10) ((b'0' + n % 10) ∷ acc))

pub itoa-free : (n : ℕ) → contains (itoa n) b'$' ≡ false
unfolding itoa
itoa-free n = itoa_from-free (suc n) n [] refl

atoi_from-digit :
    (n d : ℕ) (s : GoString) → d < 10 → atoi_from n ((b'0' + d) ∷ s) ≡ atoi_from (n * 10 + d) s
unfolding atoi_from
atoi_from-digit n d s lt = ground (arith, lt)

atoi-itoa_from :
    (fuel n : ℕ) (acc : GoString) → n < fuel → atoi_from 0 (itoa_from fuel n acc) ≡ atoi_from n acc
unfolding itoa_from
atoi-itoa_from zero n acc lt = absurd (omega (arith, lt))
atoi-itoa_from (suc fuel) n acc lt = elim (Bool-cases (ltb n 10)) [
  | inl small ↦
      rw (small, itoa_from)
        (atoi_from-digit 0 n acc (ground (arith, small)) ∙ ap (λ k. atoi_from k acc) (omega arith))
  | inr big ↦
      rw (big, itoa_from)
        (atoi-itoa_from fuel (n / 10) ((b'0' + n % 10) ∷ acc) (ground (arith, lt, big))
          ∙ atoi_from-digit (n / 10) (n % 10) acc (omega arith)
          ∙ ap (λ k. atoi_from k acc) (omega arith))
]

pub atoi-itoa : (n : ℕ) → atoi (itoa n) ≡ n
unfolding atoi itoa atoi_from
atoi-itoa n = atoi-itoa_from (suc n) n [] (omega arith)
