-- ===== src/Packet.antt =====
-- `packet.go`: a transport stream packet, its header and its adaptation field. A pointer that may
-- be nil is an `Option`; a nil slice and an empty one are both `[]`.
pub mod Parse
pub mod Write
pub mod Header
pub mod Parts
pub mod Extension
pub mod Field
pub mod Layout
pub mod Body
pub mod RoundTrip
use go_astits.Base.{
  ℕ, zero, suc, ◌-◌, Bool, true, false, Option, none, some, List, [], ℤ, pos, sub_ℕ,
}
use go_astits.Clock.{ClockReference}

abbrev pub mpeg_ts_packet_size : ℕ
mpeg_ts_packet_size = 188

abbrev pub mpeg_ts_packet_header_size : ℕ
mpeg_ts_packet_header_size = 3

-- '\x47'
abbrev pub sync_byte : ℕ
sync_byte = 0x47

pub record PacketHeader : Type 0 where
  pub continuity_counter : ℕ
  pub has_adaptation_field : Bool
  pub has_payload : Bool
  pub payload_unit_start_indicator : Bool
  pub pid : ℕ
  pub transport_error_indicator : Bool
  pub transport_priority : Bool
  pub transport_scrambling_control : ℕ

pub record PacketAdaptationExtensionField : Type 0 where
  pub dts_next_access_unit : Option ClockReference
  pub has_legal_time_window : Bool
  pub has_piecewise_rate : Bool
  pub has_seamless_splice : Bool
  pub legal_time_window_is_valid : Bool
  pub legal_time_window_offset : ℕ
  pub length : ℕ
  pub piecewise_rate : ℕ
  pub splice_type : ℕ

pub record PacketAdaptationField : Type 0 where
  pub adaptation_extension_field : Option PacketAdaptationExtensionField
  pub discontinuity_indicator : Bool
  pub elementary_stream_priority_indicator : Bool
  pub has_adaptation_extension_field : Bool
  pub has_opcr : Bool
  pub has_pcr : Bool
  pub has_transport_private_data : Bool
  pub has_splicing_countdown : Bool
  pub length : ℕ
  pub is_one_byte_stuffing : Bool
  -- an `int` that the code lets fall below zero
  pub stuffing_length : ℤ
  pub opcr : Option ClockReference
  pub pcr : Option ClockReference
  pub random_access_indicator : Bool
  pub splice_countdown : ℤ
  pub transport_private_data_length : ℕ
  pub transport_private_data : List ℕ

pub record Packet : Type 0 where
  pub adaptation_field : Option PacketAdaptationField
  pub header : PacketHeader
  pub payload : List ℕ

-- `&PacketAdaptationField{}`
abbrev pub empty_adaptation_field : PacketAdaptationField
empty_adaptation_field = record {
  adaptation_extension_field = none;
  discontinuity_indicator = false;
  elementary_stream_priority_indicator = false;
  has_adaptation_extension_field = false;
  has_opcr = false;
  has_pcr = false;
  has_transport_private_data = false;
  has_splicing_countdown = false;
  length = 0;
  is_one_byte_stuffing = false;
  stuffing_length = pos 0;
  opcr = none;
  pcr = none;
  random_access_indicator = false;
  splice_countdown = pos 0;
  transport_private_data_length = 0;
  transport_private_data = [];
}

-- `&PacketAdaptationExtensionField{}`
abbrev pub empty_adaptation_extension_field : PacketAdaptationExtensionField
empty_adaptation_extension_field = record {
  dts_next_access_unit = none;
  has_legal_time_window = false;
  has_piecewise_rate = false;
  has_seamless_splice = false;
  legal_time_window_is_valid = false;
  legal_time_window_offset = 0;
  length = 0;
  piecewise_rate = 0;
  splice_type = 0;
}
