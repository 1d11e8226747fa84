-- ===== src/Sdk/Intents/Shape/Sizes.antt =====
-- The pattern on sizes of packages/sdk/src/intent-shape.ts and the decimals of decimal.ts agree.
use waterx_predict_agent.Base.{
  ℕ, zero, suc, ◌+◌, ◌-◌, ◌*◌, ◌<◌, ◌==◌, ltb, leb, true, false, not, ◌&&◌, Bool-cases, inl, inr,
  Option, none, some, [], ◌∷◌, ◌++◌, length, replicate, Text, all_digits, digits_value, ◌≡◌, ◌↔◌,
  refl, some_injective, arith,
}
use waterx_predict_agent.Sdk.Decimal.{
  split_point, is_decimal_parts, fraction_of, pad_end, to_scaled,
}
use waterx_predict_agent.Sdk.Intents.Shape.{all_zeros, is_positive_decimal}

digits_value-zero :
    (n : ℕ) (cs : Text)
    → all_digits cs ≡ true
    → (digits_value n cs == 0) ≡ ((n == 0) && all_zeros cs)
digits_value-zero n [] d = ground arith
digits_value-zero n (c ∷ cs) d =
    let rest = digits_value-zero (n * 10 + (c - b'0')) cs (ground (arith, d)) in
    ground (arith, rest, d)

all_zeros-append : (a b : Text) → all_zeros (a ++ b) ≡ (all_zeros a && all_zeros b)
all_zeros-append [] b = refl
all_zeros-append (c ∷ a) b = let rest = all_zeros-append a b in ground (arith, rest)

all_digits-append :
    (a b : Text) → all_digits a ≡ true → all_digits b ≡ true → all_digits (a ++ b) ≡ true
all_digits-append [] b h k = k
all_digits-append (c ∷ a) b h k =
    let rest = all_digits-append a b (ground (arith, h)) k in ground (arith, rest, h)

padding : (n : ℕ) → (all_zeros (replicate n b'0') ≡ true) × (all_digits (replicate n b'0') ≡ true)
padding zero = (refl, refl)
padding (suc n) = let (z, d) = padding n in (ground (arith, z), ground (arith, d))

-- The number behind a whole part and a fraction, both of digits, is zero where both are.
scaled-zero :
    (whole fraction : Text)
    → all_digits whole ≡ true
    → all_digits fraction ≡ true
    → (digits_value 0 (whole ++ pad_end 6 fraction) == 0) ≡ (all_zeros whole && all_zeros fraction)
scaled-zero whole fraction w f =
    let (z, d) = padding (6 - length fraction) in
    let digits = all_digits-append fraction (replicate (6 - length fraction) b'0') f d in
    let all = all_digits-append whole (pad_end 6 fraction) w digits in
    let value = digits_value-zero 0 (whole ++ pad_end 6 fraction) all in
    let zeros = all_zeros-append whole (pad_end 6 fraction) in
    let tail = all_zeros-append fraction (replicate (6 - length fraction) b'0') in
    rw (value, zeros, tail, z) (ground arith)

digits-parts :
    (parts : Text × Option Text)
    → is_decimal_parts parts ≡ true
    → (all_digits parts.0 ≡ true) × (all_digits (fraction_of parts) ≡ true)
digits-parts (whole, none) e = (ground (arith, e), refl)
digits-parts (whole, some fraction) e = (ground (arith, e), ground (arith, e))

-- A text is let through as a size exactly if it reads as a decimal that is not zero.
pub is_positive_decimal_iff :
    (t : Text) → (is_positive_decimal t ≡ true) ↔ ((n : ℕ) × (to_scaled t ≡ some n) × (0 < n))
unfolding is_positive_decimal to_scaled
is_positive_decimal_iff t =
    let parts = split_point t in
    let fraction = fraction_of (split_point t) in
    elim (Bool-cases (is_decimal_parts (split_point t))) [
      | inr bad ↦ (
        λ e. let f : false ≡ true = rw bad at e in cc,
        λ h. let f : none ≡ some h.0 = rw bad at h.1 in cc,
      )
      | inl dec ↦ elim (Bool-cases (leb (length (fraction_of (split_point t))) 6)) [
        | inr long ↦
            let over : ltb 6 (length (fraction_of (split_point t))) ≡ true = ground (arith, long) in
            (
              λ e. let f : false ≡ true = rw (dec, long) at e in cc,
              λ h. let f : none ≡ some h.0 = rw (dec, over) at h.1 in cc,
            )
        | inl short ↦
            let over : ltb 6 (length (fraction_of (split_point t))) ≡ false =
              ground (arith, short) in
            let (w, f) = digits-parts (split_point t) dec in
            let zero = scaled-zero parts.0 fraction w f in
            (
              λ e. (
                digits_value 0 (parts.0 ++ pad_end 6 fraction),
                rw (dec, over) refl,
                let g : not (all_zeros parts.0 && all_zeros fraction) ≡ true =
                      rw (dec, short) at e in
                    ground (arith, zero, g),
              ),
              λ h.
                  let same : digits_value 0 (parts.0 ++ pad_end 6 fraction) ≡ h.0 =
                    some_injective (rw (dec, over) at h.1) in
                  rw (dec, short) (ground (arith, zero, same, h.2)),
            )
      ]
    ]
