-- ===== src/Descriptor/Audio/EnhancedRoundTrip.antt =====
-- The enhanced AC-3 descriptor, written and read.
use go_astits.Base.{
  ℕ, ◌<◌, ◌≤◌, ◌≡◌, refl, Bool, true, false, List, [], ◌∷◌, ◌++◌, length, length-append, arith,
  ◌>>=◌, ◌>>◌,
}
use go_astits.Bits.{digit-le}
use go_astits.Astikit.{BytesIterator, IsBytesIterator, BitsWriter, IsBitsWriter}
use go_astits.Codec.{Reads-byte, Writes, Writes-bind}
use go_astits.Cursor.Reads.{ReadsTo, ReadsTo-bind, ReadsTo-last, bytes_left-ReadsTo}
use go_astits.Descriptor.Frame.{
  Carries, carries, flag_bytes, length-flag_bytes, Writes-flag, Writes-plain, Reads-flag,
  flags_byte, flags_byte-HasFlags,
}
use go_astits.Descriptor.Audio.{
  if_set, DescriptorEnhancedAc3, new_descriptor_enhanced_ac3, calc_descriptor_enhanced_ac3_length,
  write_enhanced_ac3_flags, write_descriptor_enhanced_ac3,
}

if_set-le : (b : Bool) → if_set b 1 ≤ 1
if_set-le true = omega arith
if_set-le false = omega arith

-- A field whose flag is not set is 0, and the length fits its byte.
pub record IsEnhancedAc3 (d : DescriptorEnhancedAc3) : Type 0 where
  pub component_type_set : d.has_component_type ≡ false → d.component_type ≡ 0
  pub bsid_set : d.has_bsid ≡ false → d.bsid ≡ 0
  pub main_id_set : d.has_main_id ≡ false → d.main_id ≡ 0
  pub asvc_set : d.has_asvc ≡ false → d.asvc ≡ 0
  pub sub_stream1_set : d.has_sub_stream1 ≡ false → d.sub_stream1 ≡ 0
  pub sub_stream2_set : d.has_sub_stream2 ≡ false → d.sub_stream2 ≡ 0
  pub sub_stream3_set : d.has_sub_stream3 ≡ false → d.sub_stream3 ≡ 0
  pub fits : length d.additional_info < 248

abbrev enhanced_ac3_flags : DescriptorEnhancedAc3 → ℕ
enhanced_ac3_flags d =
    flags_byte d.has_component_type d.has_bsid d.has_main_id d.has_asvc d.mix_info_exists
      d.has_sub_stream1 d.has_sub_stream2 d.has_sub_stream3

abbrev enhanced_ac3_bytes : DescriptorEnhancedAc3 → List ℕ
enhanced_ac3_bytes d =
    (enhanced_ac3_flags d ∷ [])
    ++ (flag_bytes d.has_component_type d.component_type
        ++ (flag_bytes d.has_bsid d.bsid
            ++ (flag_bytes d.has_main_id d.main_id
                ++ (flag_bytes d.has_asvc d.asvc
                    ++ (flag_bytes d.has_sub_stream1 d.sub_stream1
                        ++ (flag_bytes d.has_sub_stream2 d.sub_stream2
                            ++ (flag_bytes d.has_sub_stream3 d.sub_stream3
                                ++ d.additional_info)))))))

enhanced_ac3-counted :
    (d : DescriptorEnhancedAc3)
    → IsEnhancedAc3 d
    → length (enhanced_ac3_bytes d) ≡ calc_descriptor_enhanced_ac3_length d
unfolding calc_descriptor_enhanced_ac3_length
enhanced_ac3-counted d v =
    let l = v.fits in
    omega (
      arith,
      length-append (flag_bytes d.has_sub_stream3 d.sub_stream3) (d.additional_info),
      length-flag_bytes d.has_sub_stream3 d.sub_stream3,
      if_set-le d.has_sub_stream3,
      length-append (flag_bytes d.has_sub_stream2 d.sub_stream2)
          (flag_bytes d.has_sub_stream3 d.sub_stream3 ++ d.additional_info),
      length-flag_bytes d.has_sub_stream2 d.sub_stream2,
      if_set-le d.has_sub_stream2,
      length-append (flag_bytes d.has_sub_stream1 d.sub_stream1) (
          flag_bytes d.has_sub_stream2 d.sub_stream2
          ++ (flag_bytes d.has_sub_stream3 d.sub_stream3 ++ d.additional_info)),
      length-flag_bytes d.has_sub_stream1 d.sub_stream1,
      if_set-le d.has_sub_stream1,
      length-append (flag_bytes d.has_asvc d.asvc) (
          flag_bytes d.has_sub_stream1 d.sub_stream1
          ++ (flag_bytes d.has_sub_stream2 d.sub_stream2
              ++ (flag_bytes d.has_sub_stream3 d.sub_stream3 ++ d.additional_info))),
      length-flag_bytes d.has_asvc d.asvc,
      if_set-le d.has_asvc,
      length-append (flag_bytes d.has_main_id d.main_id) (
          flag_bytes d.has_asvc d.asvc
          ++ (flag_bytes d.has_sub_stream1 d.sub_stream1
              ++ (flag_bytes d.has_sub_stream2 d.sub_stream2
                  ++ (flag_bytes d.has_sub_stream3 d.sub_stream3 ++ d.additional_info)))),
      length-flag_bytes d.has_main_id d.main_id,
      if_set-le d.has_main_id,
      length-append (flag_bytes d.has_bsid d.bsid) (
          flag_bytes d.has_main_id d.main_id
          ++ (flag_bytes d.has_asvc d.asvc
              ++ (flag_bytes d.has_sub_stream1 d.sub_stream1
                  ++ (flag_bytes d.has_sub_stream2 d.sub_stream2
                      ++ (flag_bytes d.has_sub_stream3 d.sub_stream3 ++ d.additional_info))))),
      length-flag_bytes d.has_bsid d.bsid,
      if_set-le d.has_bsid,
      length-append (flag_bytes d.has_component_type d.component_type) (
          flag_bytes d.has_bsid d.bsid
          ++ (flag_bytes d.has_main_id d.main_id
              ++ (flag_bytes d.has_asvc d.asvc
                  ++ (flag_bytes d.has_sub_stream1 d.sub_stream1
                      ++ (flag_bytes d.has_sub_stream2 d.sub_stream2
                          ++ (flag_bytes d.has_sub_stream3 d.sub_stream3 ++ d.additional_info)))))),
      length-flag_bytes d.has_component_type d.component_type,
      if_set-le d.has_component_type,
    )

module _ {w : BitsWriter} (iw : IsBitsWriter w) where
  enhanced_ac3_flags-Writes :
      (d : DescriptorEnhancedAc3)
      → Writes iw (write_enhanced_ac3_flags w d) (enhanced_ac3_flags d ∷ []) tt
  unfolding write_enhanced_ac3_flags flags_byte
  enhanced_ac3_flags-Writes d =
      let l0 = digit-le d.has_component_type in
      let l1 = digit-le d.has_bsid in
      let l2 = digit-le d.has_main_id in
      let l3 = digit-le d.has_asvc in
      let l4 = digit-le d.mix_info_exists in
      let l5 = digit-le d.has_sub_stream1 in
      let l6 = digit-le d.has_sub_stream2 in
      let l7 = digit-le d.has_sub_stream3 in
      record {
        run = λ out. simp (iw.write_bool-at, write_enhanced_ac3_flags, ◌>>=◌, ◌>>◌) (ground arith);
      }

  enhanced_ac3-Writes :
      (d : DescriptorEnhancedAc3)
      → Writes iw (write_descriptor_enhanced_ac3 w d) (enhanced_ac3_bytes d) tt
  unfolding write_descriptor_enhanced_ac3
  enhanced_ac3-Writes d =
      Writes-bind iw _ (enhanced_ac3_flags d ∷ []) _ (enhanced_ac3_flags-Writes d) (
        Writes-bind iw _ (flag_bytes d.has_component_type d.component_type) _
          (Writes-flag iw d.has_component_type d.component_type)
          (Writes-bind iw _ (flag_bytes d.has_bsid d.bsid) _ (Writes-flag iw d.has_bsid d.bsid) (
            Writes-bind iw _ (flag_bytes d.has_main_id d.main_id) _
              (Writes-flag iw d.has_main_id d.main_id)
              (Writes-bind iw _ (flag_bytes d.has_asvc d.asvc) _ (Writes-flag iw d.has_asvc d.asvc)
                (Writes-bind iw _ (flag_bytes d.has_sub_stream1 d.sub_stream1) _
                  (Writes-flag iw d.has_sub_stream1 d.sub_stream1)
                  (Writes-bind iw _ (flag_bytes d.has_sub_stream2 d.sub_stream2) _
                    (Writes-flag iw d.has_sub_stream2 d.sub_stream2)
                    (Writes-bind iw _ (flag_bytes d.has_sub_stream3 d.sub_stream3) _
                      (Writes-flag iw d.has_sub_stream3 d.sub_stream3)
                      (Writes-plain iw d.additional_info))))))))

module _ {r : BytesIterator} (ir : IsBytesIterator r) (d : DescriptorEnhancedAc3)
    (v : IsEnhancedAc3 d) where
  enhanced_ac3-ReadsTo :
      (e : ℕ) → ReadsTo ir e (new_descriptor_enhanced_ac3 r e) (enhanced_ac3_bytes d) d
  unfolding new_descriptor_enhanced_ac3
  enhanced_ac3-ReadsTo e =
      let h =
        flags_byte-HasFlags d.has_component_type d.has_bsid d.has_main_id d.has_asvc
          d.mix_info_exists d.has_sub_stream1 d.has_sub_stream2 d.has_sub_stream3 in
      ReadsTo-bind ir e _ (enhanced_ac3_flags d ∷ []) _ (Reads-byte ir (enhanced_ac3_flags d)) (
        rw (h.bit7, h.bit6, h.bit5, h.bit4, h.bit3, h.bit2, h.bit1, h.bit0)
          (ReadsTo-bind ir e _ (flag_bytes d.has_component_type d.component_type) _
            (Reads-flag ir d.has_component_type d.component_type v.component_type_set)
            (ReadsTo-bind ir e _ (flag_bytes d.has_bsid d.bsid) _
              (Reads-flag ir d.has_bsid d.bsid v.bsid_set)
              (ReadsTo-bind ir e _ (flag_bytes d.has_main_id d.main_id) _
                (Reads-flag ir d.has_main_id d.main_id v.main_id_set)
                (ReadsTo-bind ir e _ (flag_bytes d.has_asvc d.asvc) _
                  (Reads-flag ir d.has_asvc d.asvc v.asvc_set)
                  (ReadsTo-bind ir e _ (flag_bytes d.has_sub_stream1 d.sub_stream1) _
                    (Reads-flag ir d.has_sub_stream1 d.sub_stream1 v.sub_stream1_set)
                    (ReadsTo-bind ir e _ (flag_bytes d.has_sub_stream2 d.sub_stream2) _
                      (Reads-flag ir d.has_sub_stream2 d.sub_stream2 v.sub_stream2_set)
                      (ReadsTo-bind ir e _ (flag_bytes d.has_sub_stream3 d.sub_stream3) _
                        (Reads-flag ir d.has_sub_stream3 d.sub_stream3 v.sub_stream3_set)
                        (ReadsTo-last ir e _ (bytes_left-ReadsTo ir e d.additional_info)
                          refl)))))))))

module _ {w : BitsWriter} (iw : IsBitsWriter w) {r : BytesIterator} (ir : IsBytesIterator r) where
  pub enhanced_ac3-Carries :
      (d : DescriptorEnhancedAc3)
      → IsEnhancedAc3 d
      → Carries iw ir
          (write_descriptor_enhanced_ac3 w d)
          (calc_descriptor_enhanced_ac3_length d)
          (new_descriptor_enhanced_ac3 r)
          d
  enhanced_ac3-Carries d v =
      carries iw ir (enhanced_ac3_bytes d) (enhanced_ac3-counted d v) (enhanced_ac3-Writes iw d)
        (enhanced_ac3-ReadsTo ir d v)
