-- ===== src/Booking/Release.antt =====
-- What `releaseBooking` does to the rows of the booking and of its claims.
use Prim.Native.String.{String}
use rookopg.Database.{Booking}
