-- ===== src/Chapa/Amounts.antt =====
-- The amounts of apps/api/src/chapa/chapa.service.ts: what is printed is read back exactly.
use alkeva.Common.{
  ℕ, zero, suc, ◌+◌, ◌-◌, ◌*◌, ◌/◌, ◌%◌, ◌≤◌, ◌<◌, ◌≡◌, refl, ap, ◌∙◌, inl, inr, false, List, [],
  ◌∷◌, ◌++◌, ltb, ◌==◌, if◌then◌else◌, arith, Bool-cases, ltb→lt, ltb→ge,
}
use alkeva.Chapa.{emit, to_string, pad_start, cents_to_etb_string}

-- A decimal number: `digits / 10 ^ scale`.
pub record Decimal : Type 0 where
  pub digits : ℕ
  pub scale : ℕ

-- A decimal text, read the way JSON is: the digits before a point, then those after it.
unfoldable pub read_fraction : ℕ → ℕ → List ℕ → Decimal
read_fraction n scale [] = record { digits = n; scale = scale }
read_fraction n scale (c ∷ s) = read_fraction (10 * n + (c - 48)) (suc scale) s

unfoldable pub read_whole : ℕ → List ℕ → Decimal
read_whole n [] = record { digits = n; scale = 0 }
read_whole n (c ∷ s) = if c == 46 then read_fraction n 0 s else read_whole (10 * n + (c - 48)) s

unfoldable pub decimal_of : List ℕ → Decimal
unfolding read_whole read_fraction
decimal_of s = read_whole 0 s

not_point : (d : ℕ) → (48 + d == 46) ≡ false
not_point d = ground arith

read_digit :
    (n d : ℕ) (s : List ℕ) → d < 10 → read_whole n ((48 + d) ∷ s) ≡ read_whole (10 * n + d) s
unfolding read_whole
read_digit n d s h = rw (not_point d) (ap (λ k. read_whole k s) (omega arith))

emit-read :
    (fuel n : ℕ) (out : List ℕ) → n ≤ fuel → read_whole 0 (emit fuel n out) ≡ read_whole n out
unfolding emit
emit-read zero n out h =
    read_digit 0 (n % 10) out (omega arith) ∙ ap (λ k. read_whole k out) (omega arith)
emit-read (suc fuel) n out h = elim (Bool-cases (ltb n 10)) [
  | inl small ↦
      rw small (read_digit 0 n out (ltb→lt n 10 small) ∙ ap (λ k. read_whole k out) (omega arith))
  | inr large ↦
      let big = ltb→ge n 10 large in
      rw large (
        emit-read fuel (n / 10) ((48 + n % 10) ∷ out) (omega arith)
        ∙ (read_digit (n / 10) (n % 10) out (omega arith)
            ∙ ap (λ k. read_whole k out) (omega arith)))
]

emit-append : (fuel n : ℕ) (out rest : List ℕ) → emit fuel n out ++ rest ≡ emit fuel n (out ++ rest)
unfolding emit
emit-append zero n out rest = refl
emit-append (suc fuel) n out rest = elim (Bool-cases (ltb n 10)) [
  | inl small ↦ rw small refl
  | inr large ↦ rw large (emit-append fuel (n / 10) ((48 + n % 10) ∷ out) rest)
]

emit_small : (fuel n : ℕ) (out : List ℕ) → n < 10 → emit fuel n out ≡ (48 + n) ∷ out
unfolding emit
emit_small zero n out h = ap (λ k. (48 + k) ∷ out) (omega arith)
emit_small (suc fuel) n out h = ground arith

emit_two :
    (fuel n : ℕ) → 10 ≤ n → n < 100 → n ≤ fuel → emit fuel n [] ≡ (48 + n / 10) ∷ (48 + n % 10) ∷ []
unfolding emit
emit_two zero n h k f = absurd (omega arith)
emit_two (suc fuel) n h k f = elim (Bool-cases (ltb n 10)) [
  | inl small ↦ let s = ltb→lt n 10 small in absurd (omega arith)
  | inr large ↦ rw large (emit_small fuel (n / 10) ((48 + n % 10) ∷ []) (omega arith))
]

two : (a b c d : ℕ) → a ≡ c → b ≡ d → Path (List ℕ) (a ∷ b ∷ []) (c ∷ d ∷ [])
two a b c d e f = rw (e, f) refl

-- The two digits of the cents.
padded : (n : ℕ) → n < 100 → pad_start (to_string n) ≡ (48 + n / 10) ∷ (48 + n % 10) ∷ []
padded n h = elim (Bool-cases (ltb n 10)) [
  | inl small ↦
      let s = ltb→lt n 10 small in
      rw (emit_small n n [] s) (two _ _ _ _ (omega arith) (omega arith))
  | inr large ↦ rw (emit_two n n (ltb→ge n 10 large) h (omega arith)) refl
]

-- The two digits after the point.
read_cents :
    (whole r : ℕ)
    → r < 100
    → read_fraction whole 0 ((48 + r / 10) ∷ (48 + r % 10) ∷ [])
      ≡ record { digits = 100 * whole + r; scale = 2 }
unfolding read_fraction
read_cents whole r h = ap (λ n. record { digits = n; scale = 2 }) (omega arith)

-- Whatever number of cents is printed for the provider, the text, read as a decimal number of ETB, is
-- that number with two decimal places.
pub cents_to_etb_string-decimal :
    (cents : ℕ) → decimal_of (cents_to_etb_string cents) ≡ record { digits = cents; scale = 2 }
unfolding cents_to_etb_string decimal_of read_whole
cents_to_etb_string-decimal cents =
    let w = cents / 100 in
    let r = cents % 100 in
    rw
      (
        emit-append w w [] (46 ∷ pad_start (to_string r)),
        emit-read w w (46 ∷ pad_start (to_string r)) (omega arith),
        padded r (omega arith),
        read_cents w r (omega arith),
      )
      (ap (λ n. record { digits = n; scale = 2 }) (omega arith))
