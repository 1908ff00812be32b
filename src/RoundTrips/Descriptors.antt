-- ===== src/RoundTrips/Descriptors.antt =====
-- Lists of descriptors and program map tables, over the times of `dvb.go`.
use go_astits.Base.{◌^◌, ◌<◌, ◌≡◌, List, map, ok}
use go_astits.Astikit.{BytesIterator, IsBytesIterator, BitsWriter, IsBitsWriter}
use go_astits.Dvb.Dates.RoundTrip.{dvb_times}
use go_astits.Descriptor.Dispatch.Lengths.{calc_descriptors_length}
use go_astits.Descriptor.Dispatch.RoundTrip.{
  Described, value, list_size, calc_descriptors_length-written,
}

module _ {w : BitsWriter} (iw : IsBitsWriter w) {r : BytesIterator} (ir : IsBytesIterator r) where
  -- For descriptors that are as for the round trip of lists of them, with parts that fit, one line to
  -- each VBI service and times that are read back, and that take fewer than 65536 bytes, `calcDescriptorsLength` gives the number of
  -- bytes that they take.
  pub calc_descriptors_length-descriptors_written :
      (ds : List (Described (dvb_times ir iw)))
      → list_size (dvb_times ir iw) ds < 2 ^ 16
      → calc_descriptors_length (map (value (dvb_times ir iw)) ds)
        ≡ ok (list_size (dvb_times ir iw) ds)
  calc_descriptors_length-descriptors_written = calc_descriptors_length-written (dvb_times ir iw)
