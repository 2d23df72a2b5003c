-- ===== src/Tests/Rooms.antt =====
-- The label theorem at a concrete bed, and a bulk request.
use rookopg.Prelude.{◌≡◌, none, some, true, List, [], ◌∷◌}
use rookopg.BedLabels.{double, bed_label}
use rookopg.Database.{women}
use rookopg.Inventory.{RoomAttributes, BulkFloor}
use rookopg.BedLabels.Letters.{position, position-bed_label}

position-bed_label_example : position (bed_label 27) ≡ 27
position-bed_label_example = position-bed_label 27

abbrev sample_attributes : RoomAttributes
sample_attributes = record {
  sharing_type = double;
  sharing_capacity = none;
  gender = women;
  base_rent_paise = 900000;
  deposit_paise = some 1800000;
  sale_mode = none;
  has_ac = some true;
  has_attached_bath = none;
  has_balcony = none;
}

abbrev pub sample_floors : List BulkFloor
sample_floors =
    record { attributes = sample_attributes; floor = 0; room_count = 1; start_number = none }
    ∷ record { attributes = sample_attributes; floor = 2; room_count = 2; start_number = some 3 }
    ∷ []
