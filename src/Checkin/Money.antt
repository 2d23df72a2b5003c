-- ===== src/Checkin/Money.antt =====
-- What the no-show sweep asks of the development gateway, against what the transfer of a booking holds.
use rookopg.Prelude.{ℕ, ◌<◌, ◌≡◌, true, none, some, arith}
use rookopg.Errors.{throw, gateway_error}
use rookopg.Pricing.{PriceInput, price_booking}
use rookopg.Database.{Booking}
use rookopg.Payments.{no_show_key}
use rookopg.Payments.Dev.{DevTransfer, DevGateway, refund_to_tenant, refund_transfer, transfer_for}
use rookopg.Checkin.NoShow.{no_show_refund}

-- The refund that the sweep asks for is refused by the development gateway, and changes nothing, for every booking on which
-- commission was taken and whose transfer is still on hold: the transfer holds the owner's share,
-- and deposit and rent together exceed it by the commission.
pub no_show_refund_refused :
    (price : PriceInput) (b : Booking) (refund_id payment_id order_id : ℕ) (t : DevTransfer)
    (g : DevGateway)
    → 0 < (price_booking price).commission_paise
    → b.agreed_rent_paise ≡ (price_booking price).rent_paise
    → b.agreed_deposit_paise ≡ (price_booking price).deposit_paise
    → transfer_for g payment_id ≡ some (order_id, t)
    → t.on_hold ≡ true
    → t.owner_share_paise ≡ (price_booking price).owner_share_paise
    → g.settled (no_show_key b.id) ≡ none
    → refund_to_tenant refund_id (no_show_refund b payment_id) g
      ≡ (throw (gateway_error "Refund and release together exceed the amount held"), g)
unfolding refund_to_tenant refund_transfer price_booking
no_show_refund_refused price b refund_id payment_id order_id t g h rent deposit found held share
      fresh =
    ground arith
