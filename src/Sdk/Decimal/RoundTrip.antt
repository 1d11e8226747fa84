-- ===== src/Sdk/Decimal/RoundTrip.antt =====
-- What packages/sdk/src/decimal.ts promises: rendering and reading back lose nothing.
use waterx_predict_agent.Base.{
  ℕ, zero, suc, ◌+◌, ◌-◌, ◌/◌, ◌%◌, ◌≤◌, ◌<◌, ltb, leb, true, false, ◌&&◌, some, [], ◌∷◌, ◌++◌,
  length, length-append, length-replicate, replicate, take, drop, take-append-drop, length-drop,
  Text, all_digits, digits_value, ◌≡◌, refl, Bool-cases, inl, inr, sym, arith, ◌∙◌, ap,
}
use mathlib.Core.List.{append-nil}
use waterx_predict_agent.Sdk.Decimal.{
  split_point, pad_end, pad_start, to_scaled, print_from, print_digits, from_scaled, is_empty, buy,
  sell, target_reached,
}

print_from-value :
    (fuel n : ℕ) (acc : Text)
    → n < fuel
    → digits_value 0 (print_from fuel n acc) ≡ digits_value n acc
unfolding print_from
print_from-value zero n acc h = elim h [ ]
print_from-value (suc fuel) n acc h = elim (Bool-cases (ltb n 10)) [
  | inl small ↦ rw small (ap (λ k. digits_value k acc) (omega arith))
  | inr big ↦ rw big (
      print_from-value fuel (n / 10) ((b'0' + n % 10) ∷ acc) (ground arith)
      ∙ ap (λ k. digits_value k acc) (omega arith))
]

print_from-digits :
    (fuel n : ℕ) (acc : Text) → all_digits acc ≡ true → all_digits (print_from fuel n acc) ≡ true
unfolding print_from
print_from-digits zero n acc h = h
print_from-digits (suc fuel) n acc h = elim (Bool-cases (ltb n 10)) [
  | inl small ↦ rw small (ground arith)
  | inr big ↦ rw big (print_from-digits fuel (n / 10) ((b'0' + n % 10) ∷ acc) (ground arith))
]

zeros-value : (k : ℕ) (cs : Text) → digits_value 0 (replicate k b'0' ++ cs) ≡ digits_value 0 cs
zeros-value zero cs = refl
zeros-value (suc k) cs = zeros-value k cs

digits-append : (xs ys : Text) → all_digits (xs ++ ys) ≡ (all_digits xs && all_digits ys)
digits-append [] ys = refl
digits-append (x ∷ xs) ys = ground (arith, digits-append xs ys)

zeros-digits : (k : ℕ) → all_digits (replicate k b'0') ≡ true
zeros-digits zero = refl
zeros-digits (suc k) = zeros-digits k

split_point-digits :
    (whole fraction : Text)
    → all_digits whole ≡ true
    → split_point (whole ++ b'.' ∷ fraction) ≡ (whole, some fraction)
split_point-digits [] fraction h = refl
split_point-digits (c ∷ cs) fraction h = ground (arith, split_point-digits cs fraction)

pad_end_full : (cs : Text) → length cs ≡ 6 → pad_end 6 cs ≡ cs ++ []
pad_end_full cs h = rw h

to_scaled-parts :
    (whole fraction : Text)
    → all_digits whole ≡ true
    → is_empty whole ≡ false
    → all_digits fraction ≡ true
    → length fraction ≡ 6
    → to_scaled (whole ++ b'.' ∷ fraction) ≡ some (digits_value 0 (whole ++ fraction))
unfolding to_scaled
to_scaled-parts whole [] hw ne hf six = absurd (omega arith)
to_scaled-parts whole (c ∷ cs) hw ne hf six =
    rw (split_point-digits whole (c ∷ cs) hw)
      (ground (arith, append-nil (c ∷ cs), pad_end_full (c ∷ cs) six))

module _ (cs : Text) where
  digits-split :
      (n : ℕ)
      → all_digits cs ≡ true
      → (all_digits (take n cs) ≡ true) × (all_digits (drop n cs) ≡ true)
  digits-split n h =
      let both =
        sym (digits-append (take n cs) (drop n cs)) ∙ ap all_digits (take-append-drop n cs) ∙ h in
      ground arith

-- The rendering that `from_scaled` cuts in two: at least seven digits, worth the number.
padded : ℕ → Text
unfolding print_digits
padded n = pad_start 7 (print_digits n)

padded-digits : (n : ℕ) → all_digits (padded n) ≡ true
unfolding padded
padded-digits n = ground (
  arith,
  digits-append (replicate (7 - length (print_digits n)) b'0') (print_digits n),
  zeros-digits (7 - length (print_digits n)),
  print_from-digits (suc n) n [] refl,
)

padded-value : (n : ℕ) → digits_value 0 (padded n) ≡ n
unfolding padded
padded-value n =
    zeros-value (7 - length (print_digits n)) (print_digits n)
    ∙ print_from-value (suc n) n [] (omega arith)

length-padded : (n : ℕ) → 7 ≤ length (padded n)
unfolding padded
length-padded n = omega (
  arith,
  length-append (replicate (7 - length (print_digits n)) b'0') (print_digits n),
  length-replicate {A = ℕ} (7 - length (print_digits n)) b'0',
)

is_empty-take : (n : ℕ) (cs : Text) → 1 ≤ n → 1 ≤ length cs → is_empty (take n cs) ≡ false
is_empty-take zero cs h k = absurd (omega arith)
is_empty-take (suc n) [] h k = absurd (omega arith)
is_empty-take (suc n) (c ∷ cs) h k = refl

from_scaled-parts :
    (n : ℕ)
    → from_scaled n
      ≡ take (length (padded n) - 6) (padded n) ++ b'.' ∷ drop (length (padded n) - 6) (padded n)
unfolding from_scaled padded
from_scaled-parts n = refl

-- Reading back a rendered number gives the number, for every number.
pub to_scaled-from_scaled : (n : ℕ) → to_scaled (from_scaled n) ≡ some n
to_scaled-from_scaled n =
    let cut : ℕ = length (padded n) - 6 in
    let long = length-padded n in
    let parts = digits-split (padded n) cut (padded-digits n) in
    rw (from_scaled-parts n) (
      to_scaled-parts (take cut (padded n)) (drop cut (padded n)) parts.0
        (is_empty-take cut (padded n) (omega arith) (omega arith)) parts.1
        (omega (arith, length-drop cut (padded n)))
      ∙ ap some (ap (digits_value 0) (take-append-drop cut (padded n)) ∙ padded-value n))

-- For two readable prices a BUY fires exactly when the quote is at or below its target, a SELL
-- exactly when it is at or above it.
pub target_reached_lem :
    (quoted target : Text) (q t : ℕ)
    → to_scaled quoted ≡ some q
    → to_scaled target ≡ some t
    → (target_reached buy quoted target ≡ some (leb q t))
      × (target_reached sell quoted target ≡ some (leb t q))
unfolding target_reached
target_reached_lem quoted target q t hq ht = (ground arith, ground arith)
