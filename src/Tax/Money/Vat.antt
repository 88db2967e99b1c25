-- ===== src/Tax/Money/Vat.antt =====
-- VAT taken out of a gross amount and added to a net amount.
use ticketflow_kenya.Base.{ℕ, suc, ◌+◌, ◌*◌, ◌≤◌, ◌<◌, ◌≡◌, refl, ap, ◌∙◌, ok, arith}
use ticketflow_kenya.Base.Int.{ℤ, pos, negsuc, ◌+ℤ◌, ◌-ℤ◌, ◌*ℤ◌, ◌≤ℤ◌, abs_ℕ, int_laws, pos-+}
use ticketflow_kenya.Tax.Money.{
  RoundingMode, signed, half_up, down, rounded_abs, percentage_of_minor, InclusiveSplit,
  divide_big_int_with_rounding, ExclusiveSum, extract_vat_from_inclusive, add_vat_to_exclusive,
  bps_denominator,
}
use ticketflow_kenya.Tax.Money.Rounding.{
  is_neg, divide-multiple, rounded_abs_nearest, rounded_abs_down, signed-abs, abs-signed,
}

-- The net amount and the VAT that the two functions compute, as closed forms.
unfoldable pub net_of : ℤ → ℕ → RoundingMode → ℤ
net_of gross rate mode =
    signed (is_neg gross) (rounded_abs mode (abs_ℕ gross * 10_000) (10_000 + rate))

unfoldable pub vat_of : ℤ → ℕ → RoundingMode → ℤ
vat_of net rate mode = signed (is_neg net) (rounded_abs mode (abs_ℕ net * rate) 10_000)

pub percentage-eq :
    (n : ℤ) (rate : ℕ) (mode : RoundingMode)
    → percentage_of_minor n rate mode ≡ ok (vat_of n rate mode)
unfolding percentage_of_minor vat_of
percentage-eq n rate mode = divide-multiple n rate 9_999 mode

denominator : (rate : ℕ) → pos bps_denominator +ℤ pos rate ≡ pos (suc (9_999 + rate))
denominator rate = pos-+ 10_000 rate ∙ ap pos (omega arith)

net_division :
    (g : ℤ) (rate : ℕ) (mode : RoundingMode)
    → divide_big_int_with_rounding (g *ℤ pos bps_denominator) (pos bps_denominator +ℤ pos rate) mode
      ≡ ok (net_of g rate mode)
unfolding net_of
net_division g rate mode =
    rw (denominator rate, divide-multiple g 10_000 (9_999 + rate) mode)
      (ap (λ (d : ℕ). ok (signed (is_neg g) (rounded_abs mode (abs_ℕ g * 10_000) d))) (omega arith))

pub extract-eq :
    (g : ℤ) (rate : ℕ) (mode : RoundingMode)
    → extract_vat_from_inclusive g rate mode
      ≡ ok (record { net_minor = net_of g rate mode; vat_minor = g -ℤ net_of g rate mode })
unfolding extract_vat_from_inclusive
extract-eq g rate mode = rw net_division

pub add-eq :
    (n : ℤ) (rate : ℕ) (mode : RoundingMode)
    → add_vat_to_exclusive n rate mode
      ≡ ok (record { gross_minor = n +ℤ vat_of n rate mode; vat_minor = vat_of n rate mode })
unfolding add_vat_to_exclusive
add-eq n rate mode = rw percentage-eq

round_trip_core :
    (n r v s : ℕ)
    → 2 * (n * r) < 2 * (v * 10_000) + 10_000
    → 2 * (v * 10_000) ≤ 2 * (n * r) + 10_000
    → 2 * ((n + v) * 10_000) < 2 * (s * (10_000 + r)) + (10_000 + r)
    → 2 * (s * (10_000 + r)) ≤ 2 * ((n + v) * 10_000) + (10_000 + r)
    → s ≡ n
round_trip_core n r v s a b c d = grind arith

-- With HALF_UP the net of (net + its rounded VAT) is the net again, on absolute values.
net_recovered :
    (n r : ℕ)
    → rounded_abs half_up ((n + rounded_abs half_up (n * r) 10_000) * 10_000) (10_000 + r) ≡ n
net_recovered n r =
    let v = rounded_abs half_up (n * r) 10_000 in
    let (a, b) = rounded_abs_nearest (n * r) 10_000 (omega arith) in
    let (c, d) = rounded_abs_nearest ((n + v) * 10_000) (10_000 + r) (omega arith) in
    round_trip_core n r v _ a b c d

gross-eq :
    (n : ℤ) (r : ℕ)
    → (is_neg (n +ℤ vat_of n r half_up) ≡ is_neg n)
      × (abs_ℕ (n +ℤ vat_of n r half_up) ≡ abs_ℕ n + rounded_abs half_up (abs_ℕ n * r) 10_000)
unfolding vat_of ◌+ℤ◌
gross-eq n r = ground arith

net_of-gross : (n : ℤ) (r : ℕ) → net_of (n +ℤ vat_of n r half_up) r half_up ≡ n
unfolding net_of
net_of-gross n r = rw ((gross-eq n r).0, (gross-eq n r).1, net_recovered (abs_ℕ n) r) (signed-abs n)

add_sub_cancel : (n v : ℤ) → n +ℤ v -ℤ n ≡ v
add_sub_cancel n v = omega int_laws

-- VAT added to a net amount is taken out again exactly: with HALF_UP, for every net amount and
-- rate, extracting from the gross that `addVatToExclusive` returns gives back the net and the VAT.
pub extract-add_vat :
    (net : ℤ) (rate : ℕ)
    → (sum : ExclusiveSum) × (add_vat_to_exclusive net rate half_up ≡ ok sum)
      × (sum.gross_minor ≡ net +ℤ sum.vat_minor)
      × (extract_vat_from_inclusive sum.gross_minor rate half_up
          ≡ ok (record { net_minor = net; vat_minor = sum.vat_minor }))
extract-add_vat net rate = (
  record { gross_minor = net +ℤ vat_of net rate half_up; vat_minor = vat_of net rate half_up },
  add-eq net rate half_up,
  refl,
  rw (extract-eq, net_of-gross net rate, add_sub_cancel),
)

-- A rounded share of at most the whole is at most the whole.
rounded_abs-le : (mode : RoundingMode) (a r : ℕ) → rounded_abs mode (a * 10_000) (10_000 + r) ≤ a
rounded_abs-le half_up a r = grind (arith, rounded_abs_nearest (a * 10_000) (10_000 + r))
rounded_abs-le down a r = grind (arith, rounded_abs_down (a * 10_000) (10_000 + r))

abs-net_of :
    (g : ℤ) (rate : ℕ) (mode : RoundingMode)
    → abs_ℕ (net_of g rate mode) ≡ rounded_abs mode (abs_ℕ g * 10_000) (10_000 + rate)
unfolding net_of
abs-net_of g rate mode = abs-signed (is_neg g) (rounded_abs mode (abs_ℕ g * 10_000) (10_000 + rate))

-- With HALF_UP, extraction returns for every gross amount and rate of at least 0 a net amount that
-- is the exact one, gross * 10000 / (10000 + rate), rounded to the nearest minor unit with a tie
-- going away from zero; it has the sign of the gross or is 0, is at most as large, and together with the
-- VAT makes up the gross.
pub extract_vat_nearest :
    (gross : ℤ) (rate : ℕ)
    → (split : InclusiveSplit) × (extract_vat_from_inclusive gross rate half_up ≡ ok split)
      × (split.net_minor ≡ signed (is_neg gross) (abs_ℕ split.net_minor))
      × (2 * (abs_ℕ gross * 10_000)
          < 2 * (abs_ℕ split.net_minor * (10_000 + rate)) + (10_000 + rate))
      × (2 * (abs_ℕ split.net_minor * (10_000 + rate))
          ≤ 2 * (abs_ℕ gross * 10_000) + (10_000 + rate))
      × (abs_ℕ split.net_minor ≤ abs_ℕ gross)
      × (split.net_minor +ℤ split.vat_minor ≡ gross)
extract_vat_nearest gross rate =
    let (low, high) = rounded_abs_nearest (abs_ℕ gross * 10_000) (10_000 + rate) (omega arith) in
    (
      record {
        net_minor = net_of gross rate half_up;
        vat_minor = gross -ℤ net_of gross rate half_up;
      },
      extract-eq gross rate half_up,
      rw (abs-net_of gross rate half_up) (unfold net_of in refl),
      rw (abs-net_of gross rate half_up) low,
      rw (abs-net_of gross rate half_up) high,
      rw (abs-net_of gross rate half_up) (rounded_abs-le half_up (abs_ℕ gross) rate),
      omega int_laws,
    )

-- The net of an amount of at least 0 lies between 0 and that amount.
pub net_of-bounds :
    (g : ℤ) (rate : ℕ) (mode : RoundingMode)
    → pos 0 ≤ℤ g
    → (pos 0 ≤ℤ net_of g rate mode) × (net_of g rate mode ≤ℤ g)
unfolding net_of
net_of-bounds (pos g) rate mode h = ground (arith, rounded_abs-le mode g rate)
net_of-bounds (negsuc g) rate mode h = absurd (omega arith)

pub vat_of-nonneg :
    (n : ℤ) (rate : ℕ) (mode : RoundingMode) → pos 0 ≤ℤ n → pos 0 ≤ℤ vat_of n rate mode
unfolding vat_of
vat_of-nonneg (pos n) rate mode h = ground arith
vat_of-nonneg (negsuc n) rate mode h = absurd (omega arith)
