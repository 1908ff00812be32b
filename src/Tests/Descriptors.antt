-- ===== src/Tests/Descriptors.antt =====
-- Runs of the writers and readers of descriptors and of the program map.
use go_astits.Base.{
  ◌*◌, ap, if◌then◌else◌, ℕ, ◌+◌, ◌<◌, ◌≡◌, ◌≢◌, refl, arith, List, [], ◌∷◌, map, length, true,
  false, none, M, ok, unfinished,
}
use go_astits.Astikit.Lists.{
  list_iterator, list_iterator-IsBytesIterator, list_writer, list_writer-IsBitsWriter,
}
use go_astits.Codec.{RoundTrips, Writes}
use go_astits.Cursor.{until}
use go_astits.Descriptor.Audio.{DescriptorAc3}
use go_astits.Descriptor.Audio.{calc_descriptor_ac3_length}
use go_astits.Descriptor.Lists.{calc_descriptor_teletext_length}
use go_astits.Descriptor.Text.{calc_descriptor_service_length, calc_descriptor_user_defined_length}
use go_astits.Descriptor.Text.{DescriptorService}
use go_astits.Descriptor.Lists.{
  DescriptorTeletextItem, DescriptorVbiDataService, write_descriptor_vbi_data,
  calc_descriptor_vbi_data_length, vbi_data_descriptor_of, is_line_service,
}
use go_astits.Descriptor.Lists.Vbi.{
  IsLineService, write_descriptor_vbi_data-miscounts, vbi_data_descriptor_of-never_ends,
}
use go_astits.Descriptor.LocalTime.RoundTrip.{IsOffsetItem, IsDvbTimes}
use go_astits.Descriptor.Kind.{
  ac3, service, teletext, local_time_offset, user_defined, IsKind, kind_length,
}
use go_astits.Descriptor.Dispatch.{is_user_defined}
use go_astits.Descriptor.Dispatch.Lengths.{calc_descriptors_length}
use go_astits.Descriptor.Dispatch.RoundTrip.{Described, value, list_size, list_size-cons}
use go_astits.Pmt.StreamType.{is_video, to_pes_stream_id, is_video_stream-to_pes_stream_id}
use go_astits.Pmt.RoundTrip.{
  DescribedStream, DescribedPmt, pmt_bytes, length-pmt_bytes, streams_size-cons,
}
use go_astits.Dvb.{second, minute}
use go_astits.Descriptor.LocalTime.{
  DescriptorLocalTimeOffsetItem, calc_descriptor_local_time_offset_length,
}
use go_astits.Dvb.Dates.Late.{parse_mjd-late}
use go_astits.Dvb.Dates.{
  parse_mjd, day, days_of_date, month_length, month_lengths, is_leap, parse_dvb_time,
  write_dvb_time,
}
use go_astits.Dvb.Dates.RoundTrip.{IsReadDate, IsReadTime, dvb_times, parse_dvb_time-write_dvb_time}
use go_astits.RoundTrips.Descriptors.{calc_descriptors_length-descriptors_written}
use go_astits.Pes.{PesHeader, is_video_stream}

abbrev pub write_time : ℕ → M list_writer.Writer ℕ
write_time = write_dvb_time list_writer

abbrev pub parse_time : M list_iterator.Iter ℕ
parse_time = parse_dvb_time list_iterator

abbrev pub times :
    IsDvbTimes list_writer-IsBitsWriter list_iterator-IsBytesIterator parse_time write_time
times = dvb_times list_iterator-IsBytesIterator list_writer-IsBitsWriter

-- The day 49273, 13 October 1993, and 12:45.
abbrev pub a_date : ℕ
a_date = days_of_date 1993 10 13

abbrev pub a_time : ℕ
a_time = a_date * day + 45900 * second

pub a_date-IsReadDate : IsReadDate a_date
unfolding month_length month_lengths is_leap
a_date-IsReadDate = record {
  years = 24;
  months = 0;
  days = 3;
  years_fit = omega arith;
  months_fit = omega arith;
  days_fit = omega arith;
  in_month = omega arith;
  date = refl;
}

abbrev pub a_time-IsReadTime : IsReadTime a_time
a_time-IsReadTime = record {
  date = a_date;
  seconds = 45900;
  read = a_date-IsReadDate;
  in_day = omega arith;
  total = refl;
}

parse_dvb_time-write_dvb_time_example :
    RoundTrips list_writer-IsBitsWriter list_iterator-IsBytesIterator
      (write_dvb_time list_writer a_time)
      5
      (parse_dvb_time list_iterator)
      a_time
parse_dvb_time-write_dvb_time_example =
    parse_dvb_time-write_dvb_time list_writer-IsBitsWriter list_iterator-IsBytesIterator a_time
      a_time-IsReadTime

-- 16 October 2026.
parse_mjd-late_example : parse_mjd 61329 ≡ 0
parse_mjd-late_example = parse_mjd-late 61329 (omega arith) (omega arith)

abbrev pub a_service : DescriptorService
a_service = record { name = 65 ∷ 66 ∷ []; provider = []; service_type = 1 }

abbrev pub an_ac3 : DescriptorAc3
an_ac3 = record {
  additional_info = 9 ∷ [];
  asvc = 0;
  bsid = 8;
  component_type = 0;
  has_asvc = false;
  has_bsid = true;
  has_component_type = false;
  has_main_id = false;
  main_id = 0;
}

abbrev pub a_page : DescriptorTeletextItem
a_page = record { language = 102 ∷ 114 ∷ 97 ∷ []; magazine = 1; page = 88; teletext_type = 2 }

abbrev pub described_service : Described times
unfolding IsKind kind_length calc_descriptor_service_length
described_service = record {
  kind = service a_service;
  valid = record { kind = omega arith; some_bytes = omega arith };
}

abbrev pub described_ac3 : Described times
unfolding IsKind kind_length calc_descriptor_ac3_length
described_ac3 = record {
  kind = ac3 an_ac3;
  valid = record {
    kind = record {
      component_type_set = λ h. refl;
      bsid_set = λ h. ap (λ b. if b then 8 else 0) h;
      main_id_set = λ h. refl;
      asvc_set = λ h. refl;
      fits = omega arith;
    };
    some_bytes = omega arith;
  };
}

abbrev pub described_page : Described times
unfolding IsKind kind_length calc_descriptor_teletext_length
described_page = record {
  kind = teletext (record { items = a_page ∷ [] });
  valid = record {
    kind = (
      (
        record {
          language_code = refl;
          type_fits = omega arith;
          magazine_fits = omega arith;
          page_fits = omega arith;
        },
        tt,
      ),
      omega arith,
    );
    some_bytes = omega arith;
  };
}

abbrev pub described_own : Described times
unfolding IsKind kind_length is_user_defined calc_descriptor_user_defined_length
described_own = record {
  kind = user_defined 0x90 (1 ∷ 2 ∷ []);
  valid = record { kind = (refl, omega arith, omega arith); some_bytes = omega arith };
}

abbrev pub an_offset : DescriptorLocalTimeOffsetItem ℕ
an_offset = record {
  country_code = 102 ∷ 114 ∷ 97 ∷ [];
  country_region_id = 0;
  local_time_offset = 60 * minute;
  local_time_offset_polarity = false;
  next_time_offset = 120 * minute;
  time_of_change = a_time;
}

abbrev pub an_offset-IsOffsetItem : IsOffsetItem times an_offset
unfolding dvb_times
an_offset-IsOffsetItem = record {
  country_code = refl;
  region_fits = omega arith;
  offset_minutes = record { minutes = 60; below = omega arith; total = refl };
  next_minutes = record { minutes = 120; below = omega arith; total = refl };
  time = a_time-IsReadTime;
}

abbrev pub described_offset : Described times
unfolding IsKind kind_length calc_descriptor_local_time_offset_length
described_offset = record {
  kind = local_time_offset (record { items = an_offset ∷ [] });
  valid = record { kind = ((an_offset-IsOffsetItem, tt), omega arith); some_bytes = omega arith };
}

abbrev pub some_descriptors : List (Described times)
some_descriptors =
    described_service ∷ described_ac3 ∷ described_page ∷ described_own ∷ described_offset ∷ []

pub some_size : list_size times some_descriptors < 100
unfolding kind_length calc_descriptor_service_length calc_descriptor_ac3_length
    calc_descriptor_teletext_length calc_descriptor_user_defined_length
    calc_descriptor_local_time_offset_length described_service described_own described_offset
some_size =
    let a : kind_length described_service.kind ≡ 5 = refl in
    let b : kind_length described_ac3.kind ≡ 3 = refl in
    let c : kind_length described_page.kind ≡ 5 = refl in
    let d : kind_length described_own.kind ≡ 2 = refl in
    let e : kind_length described_offset.kind ≡ 13 = refl in
    omega (
      arith,
      list_size-cons times described_service
          (described_ac3 ∷ described_page ∷ described_own ∷ described_offset ∷ []),
      list_size-cons times described_ac3 (described_page ∷ described_own ∷ described_offset ∷ []),
      list_size-cons times described_page (described_own ∷ described_offset ∷ []),
      list_size-cons times described_own (described_offset ∷ []),
      list_size-cons times described_offset [],
    )

calc_descriptors_length-descriptors_written_example :
    calc_descriptors_length (map (value times) some_descriptors)
    ≡ ok (list_size times some_descriptors)
calc_descriptors_length-descriptors_written_example =
    calc_descriptors_length-descriptors_written list_writer-IsBitsWriter
      list_iterator-IsBytesIterator some_descriptors (omega (arith, some_size))

abbrev pub a_stream : DescribedStream times
a_stream = record {
  pid = 257;
  pid_fits = omega arith;
  stream_type = 0x1b;
  descriptors = some_descriptors;
  descriptors_fit = omega (arith, some_size);
}

abbrev pub a_program : DescribedPmt times
a_program = record {
  streams = a_stream ∷ [];
  pcr_pid = 257;
  pcr_pid_fits = omega arith;
  descriptors = some_descriptors;
  descriptors_fit = omega (arith, some_size);
  number = 1;
}

pub program_size : length (pmt_bytes times a_program) < 4000
program_size =
    omega (arith, some_size, length-pmt_bytes times a_program, streams_size-cons times a_stream [])

-- Two lines of an EBU teletext service.
abbrev two_lines : DescriptorVbiDataService
two_lines = record {
  data_service_id = 1;
  descriptors =
      record { field_parity = true; line_offset = 7 }
      ∷ record { field_parity = false; line_offset = 8 }
      ∷ [];
}

abbrev two_lines-IsLineService : IsLineService two_lines
unfolding is_line_service
two_lines-IsLineService = record {
  line_service = refl;
  lines = (omega arith, (omega arith, tt));
  fits = omega arith;
}

write_descriptor_vbi_data-miscounts_example :
    (bs : List ℕ) × Writes list_writer-IsBitsWriter
      (write_descriptor_vbi_data list_writer (record { services = two_lines ∷ [] }))
      bs
      tt
    × (length bs ≡ 4)
    × (length bs ≢ calc_descriptor_vbi_data_length (record { services = two_lines ∷ [] }))
write_descriptor_vbi_data-miscounts_example =
    write_descriptor_vbi_data-miscounts list_writer-IsBitsWriter two_lines two_lines-IsLineService
      (λ h. omega arith)

vbi_data_descriptor_of-never_ends_example :
    until list_iterator 1000 3 (vbi_data_descriptor_of list_iterator 3) (3 ∷ 1 ∷ 255 ∷ [], 2)
    ≡ unfinished
unfolding is_line_service list_iterator-IsBytesIterator
vbi_data_descriptor_of-never_ends_example =
    vbi_data_descriptor_of-never_ends list_iterator-IsBytesIterator 3 refl 1000 2 3
      (3 ∷ 1 ∷ 255 ∷ []) (omega arith)

abbrev h264_header : PesHeader
h264_header = record { optional_header = none; packet_length = 0; stream_id = 0xe0 }

is_video_stream-to_pes_stream_id_example : is_video_stream h264_header ≡ true
unfolding is_video to_pes_stream_id
is_video_stream-to_pes_stream_id_example =
    is_video_stream-to_pes_stream_id 0x1b h264_header refl refl
