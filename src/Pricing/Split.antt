-- ===== src/Pricing/Split.antt =====
-- The split of a payment between owner and platform.
use rookopg.Prelude.{ℕ, ◌+◌, ◌*◌, ◌≤◌, ◌≡◌, arith, if◌then◌else◌}
use rookopg.Prelude.Int.{pos, pos_part, ◌+ℤ◌, ◌≤ℤ◌}
use rookopg.Rounding.{round_div, round_div-le, round_div_bounds}
use rookopg.Pricing.{PriceInput, price_booking}

-- The owner's share and the platform's fee together are exactly what the tenant is charged, at any
-- rate of commission.
pub price_booking_conserves :
    (i : PriceInput)
    → (price_booking i).owner_share_paise +ℤ pos (price_booking i).platform_fee_paise
      ≡ pos (price_booking i).total_payable_paise
unfolding price_booking ◌+ℤ◌
price_booking_conserves i = ground arith

commission-le : (rent bps : ℕ) → bps ≤ 10000 → round_div (rent * bps) 10000 ≤ rent
commission-le rent bps h = round_div-le (rent * bps) 10000 rent (omega arith) (grind arith)

-- At a rate of at most 10000 basis points (the configuration's bound) the owner keeps the whole
-- deposit, and at most the rent and the deposit.
owner_share_bounds :
    (i : PriceInput)
    → i.commission_bps ≤ 10000
    → let p = price_booking i in
      (pos p.deposit_paise ≤ℤ p.owner_share_paise)
      × (p.owner_share_paise ≤ℤ pos (p.rent_paise + p.deposit_paise))
unfolding price_booking
owner_share_bounds i h =
    ground (arith, commission-le (pos_part i.monthly_rent_paise) i.commission_bps)

-- Commission is the rate applied to the rent, to within half a paisa, and nothing in the free
-- period.
commission_exact :
    (i : PriceInput)
    → let p = price_booking i in
      let exact = if i.commission_applies then p.rent_paise * i.commission_bps else 0 in
      (2 * exact ≤ 20000 * p.commission_paise + 10000)
      × (20000 * p.commission_paise ≤ 2 * exact + 10000)
unfolding price_booking
commission_exact i =
    ground (
      arith,
      round_div_bounds (pos_part i.monthly_rent_paise * i.commission_bps) 10000 (omega arith),
    )
