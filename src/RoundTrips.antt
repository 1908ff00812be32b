-- ===== src/RoundTrips.antt =====
-- The parsers and writers of `packet.go`, `clock_reference.go` and `data_pat.go` against each other.
pub mod Descriptors
pub mod Sections
use go_astits.Base.{ℕ, ◌+◌, ◌^◌, ◌<◌, ◌≡◌, refl, subst, arith, List, ◌++◌, length, drop, All, ok}
use go_astits.Astikit.{BytesIterator, IsBytesIterator, BitsWriter, IsBitsWriter}
use go_astits.Codec.{Writes, RoundTrips}
use go_astits.Clock.{
  ClockReference, parse_pcr, write_pcr, parse_pts_or_dts, write_pts_or_dts, parse_escr, write_escr,
}
use go_astits.Clock.RoundTrip.{
  pcr_bytes, pts_or_dts_bytes, escr_bytes, IsClock, IsTimestamp, write_pcr-Writes,
  write_pts_or_dts-Writes, write_escr-Writes, parse_pcr-Reads, parse_pts_or_dts-Reads,
  parse_escr-Reads,
}
use go_astits.Packet.{PacketHeader, PacketAdaptationExtensionField}
use go_astits.Packet.Parse.{parse_packet_header, parse_adaptation_extension}
use go_astits.Packet.Write.{
  write_packet_header, write_packet_adaptation_field_extension,
  calc_packet_adaptation_field_extension_length,
}
use go_astits.Packet.Header.{
  header_bytes, IsHeader, write_packet_header-Writes, parse_packet_header-Reads,
}
use go_astits.Packet.Extension.{
  extension_bytes, IsExtension, write_extension-Writes, parse_extension-Reads,
}
use go_astits.Packet.Field.Layout.{length-extension}
use go_astits.Pat.{PatData, calc_pat_section_length, parse_pat_section, write_pat_section}
use go_astits.Pat.RoundTrip.{
  IsProgram, programs_bytes, length-programs_bytes, write_pat_section-Writes, parse_pat_section-at,
}

module _ {w : BitsWriter} (iw : IsBitsWriter w) {r : BytesIterator} (ir : IsBytesIterator r) where
  -- A clock whose base has 33 bits and whose extension has 9 is written as a PCR of six bytes, and
  -- `parsePCR` reads it back.
  pub parse_pcr-write_pcr :
      (cr : ClockReference) → IsClock cr → RoundTrips iw ir (write_pcr w cr) 6 (parse_pcr r) cr
  unfolding RoundTrips pcr_bytes
  parse_pcr-write_pcr cr h = (pcr_bytes cr, refl, write_pcr-Writes iw cr h, parse_pcr-Reads ir cr h)

  -- A time stamp of 33 bits is written in five bytes under any flag of four bits, and
  -- `parsePTSOrDTS` reads it back.
  pub parse_pts_or_dts-write_pts_or_dts :
      (flag : ℕ) (cr : ClockReference)
      → flag < 16
      → IsTimestamp cr
      → RoundTrips iw ir (write_pts_or_dts w flag cr) 5 (parse_pts_or_dts r) cr
  unfolding RoundTrips pts_or_dts_bytes
  parse_pts_or_dts-write_pts_or_dts flag cr f h = (
    pts_or_dts_bytes flag cr,
    refl,
    write_pts_or_dts-Writes iw flag cr f h,
    parse_pts_or_dts-Reads ir flag cr f h,
  )

  -- A clock whose base has 33 bits and whose extension has 9 is written as an ESCR of six bytes,
  -- and `parseESCR` reads it back.
  pub parse_escr-write_escr :
      (cr : ClockReference) → IsClock cr → RoundTrips iw ir (write_escr w cr) 6 (parse_escr r) cr
  unfolding RoundTrips escr_bytes
  parse_escr-write_escr cr h =
      (escr_bytes cr, refl, write_escr-Writes iw cr h, parse_escr-Reads ir cr h)

  -- A packet header whose PID, scrambling control and counter fit 13, 2 and 4 bits is written in
  -- three bytes, and `parsePacketHeader` reads it back.
  pub parse_packet_header-write_packet_header :
      (h : PacketHeader)
      → IsHeader h
      → RoundTrips iw ir (write_packet_header w h) 3 (parse_packet_header r) h
  unfolding RoundTrips header_bytes
  parse_packet_header-write_packet_header h v =
      (header_bytes h, refl, write_packet_header-Writes iw h v, parse_packet_header-Reads ir h v)

  -- An extension that the format can hold, and whose length is the one that is calculated for it,
  -- is written in one byte more than this length, and read back.
  pub parse_extension-write_extension :
      (afe : PacketAdaptationExtensionField)
      → IsExtension afe
      → RoundTrips iw ir
          (write_packet_adaptation_field_extension w afe)
          (1 + calc_packet_adaptation_field_extension_length afe)
          (parse_adaptation_extension r)
          afe
  unfolding RoundTrips
  parse_extension-write_extension afe h =
      subst
        (λ n.
          RoundTrips iw ir (write_packet_adaptation_field_extension w afe) n
            (parse_adaptation_extension r) afe)
        (length-extension afe h)
        (extension_bytes afe, refl, write_extension-Writes iw afe h, parse_extension-Reads ir afe h)

  -- A section of at most 16,383 programs, with numbers below 65536 and ids below 8192, is written in
  -- the number of bytes that `calcPATSectionLength` says, and from wherever these bytes stand,
  -- `parsePATSection`, told where they end and the id of the transport stream, reads the programs back.
  pub parse_pat_section-write_pat_section :
      (d : PatData)
      → All IsProgram d.programs
      → length d.programs < 2 ^ 14
      → let n = calc_pat_section_length d in
        (bytes : List ℕ) × Writes iw (write_pat_section w d) bytes n
        × ((rest bs : List ℕ) (o : ℕ)
            → drop o bs ≡ bytes ++ rest
            → parse_pat_section r (o + n) d.transport_stream_id (ir.at bs o)
              ≡ ok (d, ir.at bs (o + n)))
  unfolding calc_pat_section_length
  parse_pat_section-write_pat_section d v l =
      let e : length (programs_bytes d.programs) ≡ calc_pat_section_length d =
        omega (arith, length-programs_bytes d.programs) in
      (
        programs_bytes d.programs,
        subst (Writes iw (write_pat_section w d) (programs_bytes d.programs)) e
            (write_pat_section-Writes iw d v),
        λ rest bs o h. rw (← e) (parse_pat_section-at ir d rest bs o v h),
      )
