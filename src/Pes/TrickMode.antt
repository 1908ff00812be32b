-- ===== src/Pes/TrickMode.antt =====
-- The DSM trick mode, a byte whose fields depend on the control in its highest bits.
use go_astits.Base.{
  ℕ, ◌+◌, ◌*◌, ◌/◌, ◌<◌, ◌≡◌, refl, ◌∙◌, arith, true, false, ◌==◌, if◌then◌else◌, [], ◌∷◌,
  append_assoc, ◌>>=◌, ◌>>◌,
}
use go_astits.Bits.{bit_and_mask, digit}
use go_astits.Astikit.{BitsWriter, IsBitsWriter}
use go_astits.Codec.{Writes}
use go_astits.Pes.{DsmTrickMode, trick_mode_control_freeze_frame}
use go_astits.Pes.Parse.{is_fast, is_slow, trick_mode, parse_dsm_trick_mode}
use go_astits.Pes.Write.{write_dsm_trick_mode, write_trick_mode_fields}

abbrev pub fast_mode : ℕ → ℕ → ℕ → ℕ → DsmTrickMode
fast_mode c field intra frequency = record (trick_mode c) {
  field_id = field;
  intra_slice_refresh = intra;
  frequency_truncation = frequency;
}

-- The trick modes that the byte can hold: what the control does not announce is zero.
pub data IsTrickMode : DsmTrickMode → Type 0 where
  fast :
      (c field intra frequency : ℕ)
      → c < 8
      → is_fast c ≡ true
      → field < 4
      → intra < 2
      → frequency < 4
      → IsTrickMode (fast_mode c field intra frequency)
  freeze : (field : ℕ) → field < 4 → IsTrickMode (record (trick_mode 2) { field_id = field })
  slow :
      (c repeat : ℕ)
      → c < 8
      → is_slow c ≡ true
      → repeat < 32
      → IsTrickMode (record (trick_mode c) { repeat_control = repeat })
  other : (c : ℕ) → 4 < c → c < 8 → IsTrickMode (trick_mode c)

unfoldable pub mode_byte : DsmTrickMode → ℕ
mode_byte m =
    let c = m.trick_mode_control in
    c * 32
    + (if is_fast c
        then m.field_id * 8 + m.intra_slice_refresh * 4 + m.frequency_truncation
        else if c == trick_mode_control_freeze_frame
        then m.field_id * 8 + 7
        else if is_slow c
        then m.repeat_control
        else 31)

slow_not_fast : (c : ℕ) → is_slow c ≡ true → is_fast c ≡ false
slow_not_fast c e = ground arith

slow_not_freeze : (c : ℕ) → is_slow c ≡ true → (c == 2) ≡ false
slow_not_freeze c e = ground arith

other_not_fast : (c : ℕ) → 4 < c → is_fast c ≡ false
other_not_fast c l = ground arith

other_not_freeze : (c : ℕ) → 4 < c → (c == 2) ≡ false
other_not_freeze c l = ground arith

other_not_slow : (c : ℕ) → 4 < c → is_slow c ≡ false
other_not_slow c l = ground arith

-- The digit that is written for a bit.
refresh_digit : (i : ℕ) → i < 2 → digit (i == 1) ≡ i
refresh_digit i h = ground arith

mode_ext :
    (m n : DsmTrickMode)
    → m.field_id ≡ n.field_id
    → m.frequency_truncation ≡ n.frequency_truncation
    → m.intra_slice_refresh ≡ n.intra_slice_refresh
    → m.repeat_control ≡ n.repeat_control
    → m.trick_mode_control ≡ n.trick_mode_control
    → m ≡ n
mode_ext m n p q s t u = λ i. record {
  field_id = p i;
  frequency_truncation = q i;
  intra_slice_refresh = s i;
  repeat_control = t i;
  trick_mode_control = u i;
}

parse_mode_byte : (m : DsmTrickMode) → IsTrickMode m → parse_dsm_trick_mode (mode_byte m) ≡ m
unfolding parse_dsm_trick_mode mode_byte
parse_mode_byte _ (fast c field intra frequency l e f i q) =
    let b = c * 32 + (field * 8 + intra * 4 + frequency) in
    let control : b / 32 ≡ c = omega arith in
    rw (e, control, e)
      (mode_ext _ _ (bit_and_mask 2 (b / 8) ∙ omega arith) (bit_and_mask 2 b ∙ omega arith)
        (bit_and_mask 1 (b / 4) ∙ omega arith) refl refl)
parse_mode_byte _ (freeze field f) =
    let b = 2 * 32 + (field * 8 + 7) in
    let control : b / 32 ≡ 2 = omega arith in
    rw control (mode_ext _ _ (bit_and_mask 2 (b / 8) ∙ omega arith) refl refl refl refl)
parse_mode_byte _ (slow c repeat l e h) =
    let b = c * 32 + repeat in
    let control : b / 32 ≡ c = omega arith in
    rw
      (
        slow_not_fast c e,
        slow_not_freeze c e,
        e,
        control,
        slow_not_fast c e,
        slow_not_freeze c e,
        e,
      )
      (mode_ext _ _ refl refl refl (bit_and_mask 5 b ∙ omega arith) refl)
parse_mode_byte _ (other c l h) =
    let b = c * 32 + 31 in
    let control : b / 32 ≡ c = omega arith in
    let u = other_not_fast c l in
    let v = other_not_freeze c l in
    let x = other_not_slow c l in rw (u, v, x, control, u, v, x) refl

module _ {w : BitsWriter} (iw : IsBitsWriter w) where
  write_mode :
      (m : DsmTrickMode) → IsTrickMode m → Writes iw (write_dsm_trick_mode w m) (mode_byte m ∷ []) 1
  unfolding write_dsm_trick_mode write_trick_mode_fields mode_byte
  write_mode _ (fast c field intra frequency l e f i q) = record {
    run = λ out.
        rw (iw.write_n-at c 3 out 0 0, write_dsm_trick_mode, ◌>>=◌, e)
          (simp
            (
              refresh_digit intra i,
              iw.write_n-at,
              iw.write_bool-at,
              write_dsm_trick_mode,
              write_trick_mode_fields,
              ◌>>=◌,
              ◌>>◌,
              append_assoc,
            )
            (ground (arith, refresh_digit intra i)));
  }
  write_mode _ (freeze field f) = record {
    run = λ out. simp (iw.write_n-at, ◌>>=◌, ◌>>◌, append_assoc) (ground arith);
  }
  write_mode _ (slow c repeat l e h) = record {
    run = λ out.
        rw
          (
            iw.write_n-at c 3 out 0 0,
            write_dsm_trick_mode,
            ◌>>=◌,
            slow_not_fast c e,
            slow_not_freeze c e,
            e,
          )
          (simp
            (
              iw.write_n-at, iw.write_bool-at, write_dsm_trick_mode, write_trick_mode_fields, ◌>>=◌,
              ◌>>◌, append_assoc,
            )
            (ground arith));
  }
  write_mode _ (other c l h) = record {
    run = λ out.
        rw
          (
            iw.write_n-at c 3 out 0 0,
            write_dsm_trick_mode,
            ◌>>=◌,
            other_not_fast c l,
            other_not_freeze c l,
            other_not_slow c l,
          )
          (simp
            (
              iw.write_n-at, iw.write_bool-at, write_dsm_trick_mode, write_trick_mode_fields, ◌>>=◌,
              ◌>>◌, append_assoc,
            )
            (ground arith));
  }

  -- A trick mode that a byte can hold is written in one byte, and `parseDSMTrickMode` reads it back.
  pub parse_dsm_trick_mode-write_dsm_trick_mode :
      (m : DsmTrickMode)
      → IsTrickMode m
      → (b : ℕ) × Writes iw (write_dsm_trick_mode w m) (b ∷ []) 1 × (parse_dsm_trick_mode b ≡ m)
  parse_dsm_trick_mode-write_dsm_trick_mode m h = (mode_byte m, write_mode m h, parse_mode_byte m h)
