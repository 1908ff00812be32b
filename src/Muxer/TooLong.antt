-- ===== src/Muxer/TooLong.antt =====
-- A PES header that is longer than a packet.
use go_astits.Muxer.{Muxer}
