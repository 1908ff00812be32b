-- ===== src/Pmt/StreamType.antt =====
-- The kinds of elementary streams, and the id that a stream of a kind has in its PES packets.
use go_astits.Base.{ℕ, ◌≡◌, Bool, true, false, ◌==◌, ◌||◌, if◌then◌else◌, arith, List, [], ◌∷◌}
use go_astits.Pes.{PesHeader, is_video_stream}

-- A `case` of a `switch`.
abbrev one_of : ℕ → List ℕ → Bool
one_of t [] = false
one_of t (x ∷ xs) = (t == x) || one_of t xs

-- MPEG-1, MPEG-2, MPEG-4, H.264, H.265, CAVS, VC-1 and Dirac.
unfoldable pub is_video : ℕ → Bool
is_video t =
    (t == 0x01)
    || ((t == 0x02)
        || ((t == 0x10)
            || ((t == 0x1b) || ((t == 0x24) || ((t == 0x42) || ((t == 0xea) || (t == 0xd1)))))))

-- MPEG-1, MPEG-2, AAC, AAC LATM, AC-3, DTS, TrueHD and enhanced AC-3.
unfoldable pub is_audio : ℕ → Bool
is_audio t =
    (t == 0x03)
    || ((t == 0x04)
        || ((t == 0x0f)
            || ((t == 0x11) || ((t == 0x81) || ((t == 0x82) || ((t == 0x83) || (t == 0x87)))))))

unfoldable pub to_pes_stream_id : ℕ → ℕ
to_pes_stream_id t =
    if (t == 0x01)
      || ((t == 0x02)
          || ((t == 0x10) || ((t == 0x1b) || ((t == 0x24) || ((t == 0x42) || (t == 0xea))))))
    then 0xe0
    else if t == 0xd1
    then 0xfd
    else if (t == 0x04) || ((t == 0x0f) || (t == 0x11))
    then 0xc0
    else if (t == 0x81) || (t == 0x87)
    then 0xfd
    else if (t == 0x05) || ((t == 0x06) || (t == 0x15))
    then 0xfc
    else 0xbd

-- No kind of stream is both video and audio.
pub is_video-is_audio : (t : ℕ) → is_video t ≡ true → is_audio t ≡ false
unfolding is_video is_audio
is_video-is_audio t h = ground arith

-- A PES header with the stream id of a kind of video is that of a video stream, whose packet length
-- may be left open.
pub is_video_stream-to_pes_stream_id :
    (t : ℕ) (h : PesHeader)
    → is_video t ≡ true
    → h.stream_id ≡ to_pes_stream_id t
    → is_video_stream h ≡ true
unfolding is_video to_pes_stream_id is_video_stream
is_video_stream-to_pes_stream_id t h v e = ground arith
