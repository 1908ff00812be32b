-- ===== src/Descriptor/Audio/RoundTrip.antt =====
-- The AC-3 descriptor, written and read.
use go_astits.Base.{
  ℕ, ◌<◌, ◌≤◌, ◌≡◌, refl, Bool, true, false, List, [], ◌∷◌, ◌++◌, length, length-append, arith,
  ◌>>=◌, ◌>>◌,
}
use go_astits.Bits.{digit-le}
use go_astits.Astikit.{BytesIterator, IsBytesIterator, BitsWriter, IsBitsWriter}
use go_astits.Codec.{Reads-byte, Writes, Writes-bind}
use go_astits.Cursor.Reads.{ReadsTo, ReadsTo-bind, ReadsTo-last, bytes_left-ReadsTo}
use go_astits.Descriptor.Frame.{
  Carries, carries, flag_bytes, length-flag_bytes, Writes-flag, Writes-plain, Reads-flag,
  flags_byte, flags_byte-HasFlags,
}
use go_astits.Descriptor.Audio.{
  if_set, DescriptorAc3, new_descriptor_ac3, calc_descriptor_ac3_length, write_ac3_flags,
  write_descriptor_ac3,
}

if_set-le : (b : Bool) → if_set b 1 ≤ 1
if_set-le true = omega arith
if_set-le false = omega arith

-- A field whose flag is not set is 0, and the length fits its byte.
pub record IsAc3 (d : DescriptorAc3) : Type 0 where
  pub component_type_set : d.has_component_type ≡ false → d.component_type ≡ 0
  pub bsid_set : d.has_bsid ≡ false → d.bsid ≡ 0
  pub main_id_set : d.has_main_id ≡ false → d.main_id ≡ 0
  pub asvc_set : d.has_asvc ≡ false → d.asvc ≡ 0
  pub fits : length d.additional_info < 251

abbrev ac3_flags : DescriptorAc3 → ℕ
ac3_flags d =
    flags_byte d.has_component_type d.has_bsid d.has_main_id d.has_asvc true true true true

abbrev ac3_bytes : DescriptorAc3 → List ℕ
ac3_bytes d =
    (ac3_flags d ∷ [])
    ++ (flag_bytes d.has_component_type d.component_type
        ++ (flag_bytes d.has_bsid d.bsid
            ++ (flag_bytes d.has_main_id d.main_id
                ++ (flag_bytes d.has_asvc d.asvc ++ d.additional_info))))

ac3-counted : (d : DescriptorAc3) → IsAc3 d → length (ac3_bytes d) ≡ calc_descriptor_ac3_length d
unfolding calc_descriptor_ac3_length
ac3-counted d v =
    let l = v.fits in
    omega (
      arith,
      length-append (flag_bytes d.has_asvc d.asvc) (d.additional_info),
      length-flag_bytes d.has_asvc d.asvc,
      if_set-le d.has_asvc,
      length-append (flag_bytes d.has_main_id d.main_id)
          (flag_bytes d.has_asvc d.asvc ++ d.additional_info),
      length-flag_bytes d.has_main_id d.main_id,
      if_set-le d.has_main_id,
      length-append (flag_bytes d.has_bsid d.bsid) (
          flag_bytes d.has_main_id d.main_id
          ++ (flag_bytes d.has_asvc d.asvc ++ d.additional_info)),
      length-flag_bytes d.has_bsid d.bsid,
      if_set-le d.has_bsid,
      length-append (flag_bytes d.has_component_type d.component_type) (
          flag_bytes d.has_bsid d.bsid
          ++ (flag_bytes d.has_main_id d.main_id
              ++ (flag_bytes d.has_asvc d.asvc ++ d.additional_info))),
      length-flag_bytes d.has_component_type d.component_type,
      if_set-le d.has_component_type,
    )

module _ {w : BitsWriter} (iw : IsBitsWriter w) where
  ac3_flags-Writes : (d : DescriptorAc3) → Writes iw (write_ac3_flags w d) (ac3_flags d ∷ []) tt
  unfolding write_ac3_flags flags_byte
  ac3_flags-Writes d =
      let l0 = digit-le d.has_component_type in
      let l1 = digit-le d.has_bsid in
      let l2 = digit-le d.has_main_id in
      let l3 = digit-le d.has_asvc in
      record {
        run = λ out.
            simp (iw.write_n-at, iw.write_bool-at, write_ac3_flags, ◌>>=◌, ◌>>◌) (ground arith);
      }

  ac3-Writes : (d : DescriptorAc3) → Writes iw (write_descriptor_ac3 w d) (ac3_bytes d) tt
  unfolding write_descriptor_ac3
  ac3-Writes d = Writes-bind iw _ (ac3_flags d ∷ []) _ (ac3_flags-Writes d) (
      Writes-bind iw _ (flag_bytes d.has_component_type d.component_type) _
        (Writes-flag iw d.has_component_type d.component_type)
        (Writes-bind iw _ (flag_bytes d.has_bsid d.bsid) _ (Writes-flag iw d.has_bsid d.bsid) (
          Writes-bind iw _ (flag_bytes d.has_main_id d.main_id) _
            (Writes-flag iw d.has_main_id d.main_id)
            (Writes-bind iw _ (flag_bytes d.has_asvc d.asvc) _ (Writes-flag iw d.has_asvc d.asvc)
              (Writes-plain iw d.additional_info)))))

module _ {r : BytesIterator} (ir : IsBytesIterator r) (d : DescriptorAc3) (v : IsAc3 d) where
  ac3-ReadsTo : (e : ℕ) → ReadsTo ir e (new_descriptor_ac3 r e) (ac3_bytes d) d
  unfolding new_descriptor_ac3
  ac3-ReadsTo e =
      let h =
        flags_byte-HasFlags d.has_component_type d.has_bsid d.has_main_id d.has_asvc true true true
          true in
      ReadsTo-bind ir e _ (ac3_flags d ∷ []) _ (Reads-byte ir (ac3_flags d)) (
        rw (h.bit7, h.bit6, h.bit5, h.bit4)
          (ReadsTo-bind ir e _ (flag_bytes d.has_component_type d.component_type) _
            (Reads-flag ir d.has_component_type d.component_type v.component_type_set)
            (ReadsTo-bind ir e _ (flag_bytes d.has_bsid d.bsid) _
              (Reads-flag ir d.has_bsid d.bsid v.bsid_set)
              (ReadsTo-bind ir e _ (flag_bytes d.has_main_id d.main_id) _
                (Reads-flag ir d.has_main_id d.main_id v.main_id_set)
                (ReadsTo-bind ir e _ (flag_bytes d.has_asvc d.asvc) _
                  (Reads-flag ir d.has_asvc d.asvc v.asvc_set)
                  (ReadsTo-last ir e _ (bytes_left-ReadsTo ir e d.additional_info) refl))))))

module _ {w : BitsWriter} (iw : IsBitsWriter w) {r : BytesIterator} (ir : IsBytesIterator r) where
  pub ac3-Carries :
      (d : DescriptorAc3)
      → IsAc3 d
      → Carries iw ir
          (write_descriptor_ac3 w d)
          (calc_descriptor_ac3_length d)
          (new_descriptor_ac3 r)
          d
  ac3-Carries d v =
      carries iw ir (ac3_bytes d) (ac3-counted d v) (ac3-Writes iw d) (ac3-ReadsTo ir d v)
