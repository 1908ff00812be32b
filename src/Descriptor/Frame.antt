-- ===== src/Descriptor/Frame.antt =====
-- A part of a descriptor that is written and read up to the descriptor's end, with the rules for
-- the fields that the parts share.
use go_astits.Base.{
  ℕ, ◌+◌, ◌-◌, ◌*◌, ◌/◌, ◌%◌, ◌^◌, ◌<◌, ◌≡◌, refl, sym, ap, ◌∙◌, Bool, true, false, List, [], ◌∷◌,
  ◌++◌, length, take, replicate, append-nil, length-append, take-append, arith, M, ◌>>=◌, ◌>>◌,
  when, All, bit_and,
}
use go_astits.Bits.{
  has_bit, digit, digit-le, has_bit-digit, ◌<|>◌, bit_and_mask, bit_or_disjoint, or_next,
}
use go_astits.Astikit.{BytesIterator, IsBytesIterator, BitsWriter, IsBitsWriter}
use go_astits.Codec.{
  Reads, Reads-byte, Reads-pure, Writes, Writes-bind, Writes-return, Writes-uint8, Writes-bytes,
}
use go_astits.Cursor.Reads.{ReadsTo, bytes_of}
use go_astits.Descriptor.Audio.{if_set}
use go_astits.Descriptor.Fixed.{uint32_of_bytes}
use go_astits.Descriptor.Text.{write_counted, write_nibbles}
use go_astits.Descriptor.Lists.{write_each}

-- `m` puts out `n` bytes, and `p`, told where they end, reads `a` off them.
module _ {w : BitsWriter} (iw : IsBitsWriter w) {r : BytesIterator} (ir : IsBytesIterator r) where
  pub record Carries {A : Type 0} (m : M w.Writer (Unit {0})) (n : ℕ) (p : ℕ → M r.Iter A) (a : A)
      : Type 0 where
    pub bytes : List ℕ
    pub counted : length bytes ≡ n
    pub written : Writes iw m bytes tt
    pub read : (e : ℕ) → ReadsTo ir e (p e) bytes a

  pub carries :
      {A : Type 0} {m : M w.Writer (Unit {0})} {n : ℕ} {p : ℕ → M r.Iter A} {a : A} (bs : List ℕ)
      → length bs ≡ n
      → Writes iw m bs tt
      → ((e : ℕ) → ReadsTo ir e (p e) bs a)
      → Carries m n p a
  carries bs c u v = record { bytes = bs; counted = c; written = u; read = v }

take-whole : (n : ℕ) (xs : List ℕ) → length xs ≡ n → take n xs ++ replicate (n - length xs) 0 ≡ xs
take-whole n xs e = rw (← e) (
    let t : take (length xs) xs ≡ xs =
      ap (take (length xs)) (sym (append-nil xs)) ∙ take-append xs [] in
    let z : length xs - length xs ≡ 0 = omega arith in rw (t, z) (append-nil xs))

-- A byte that is there if a flag is set.
unfoldable pub flag_bytes : Bool → ℕ → List ℕ
flag_bytes true x = x ∷ []
flag_bytes false x = []

pub length-flag_bytes : (b : Bool) (x : ℕ) → length (flag_bytes b x) ≡ if_set b 1
unfolding flag_bytes
length-flag_bytes true x = refl
length-flag_bytes false x = refl

pub numbers_of : (x y : ℕ) → y < 2 ^ 8 → (x * 2 ^ 8 <|> y) ≡ x * 2 ^ 8 + y
numbers_of x y l = bit_or_disjoint 8 (x * 2 ^ 8) y (omega arith) l

pub uint16_bytes : ℕ → List ℕ
uint16_bytes x = x / 256 ∷ x % 256 ∷ []

unfoldable pub uint32_bytes : ℕ → List ℕ
uint32_bytes x = x / 2 ^ 24 ∷ x / 2 ^ 16 % 256 ∷ x / 256 % 256 ∷ x % 256 ∷ []

pub uint32_of_bytes-uint32_bytes : (x : ℕ) → x < 2 ^ 32 → uint32_of_bytes (uint32_bytes x) ≡ x
unfolding uint32_of_bytes uint32_bytes
uint32_of_bytes-uint32_bytes c h =
    let p1 =
      bit_or_disjoint 24 (c / 2 ^ 24 * 2 ^ 24) (c / 2 ^ 16 % 256 * 2 ^ 16) (omega arith)
        (omega arith) in
    let p2 = or_next 16 (c / 256 % 256 * 2 ^ 8) p1 (omega arith) (omega arith) in
    let p3 = or_next 8 (c % 256) p2 (omega arith) (omega arith) in p3 ∙ omega arith

module _ {w : BitsWriter} (iw : IsBitsWriter w) where
  pub Writes-flag : (b : Bool) (x : ℕ) → Writes iw (when b tt (w.write_uint8 x)) (flag_bytes b x) tt
  unfolding flag_bytes
  Writes-flag true x = Writes-uint8 iw x
  Writes-flag false x = Writes-return iw tt tt refl

  pub Writes-plain : (xs : List ℕ) → Writes iw (w.write_bytes xs) xs tt
  Writes-plain xs = record { run = λ out. iw.write_bytes-at xs out }

  -- A field of `n` bytes that has as many.
  pub Writes-padded :
      (n : ℕ) (xs : List ℕ) → length xs ≡ n → Writes iw (w.write_bytes_n xs n 0) xs tt
  Writes-padded n xs e =
      Writes-bytes iw (take-whole n xs e) (record { run = λ out. iw.write_bytes_n-at xs n 0 out })

  pub Writes-uint32 : (x : ℕ) → Writes iw (w.write_uint32 x) (uint32_bytes x) tt
  unfolding uint32_bytes
  Writes-uint32 x = record { run = λ out. iw.write_uint32-at x out }

  pub write_counted-Writes :
      (xs : List ℕ) → length xs < 256 → Writes iw (write_counted w xs) (length xs ∷ xs) tt
  unfolding write_counted
  write_counted-Writes xs l =
      let e : length xs % 256 ≡ length xs = omega arith in
      rw e (Writes-bind iw _ (length xs ∷ []) xs (Writes-uint8 iw (length xs)) (Writes-plain xs))

  pub write_nibbles-Writes :
      (a b : ℕ) → a < 16 → b < 16 → Writes iw (write_nibbles w a b) ((a * 16 + b) ∷ []) tt
  unfolding write_nibbles
  write_nibbles-Writes a b p q = record {
    run = λ out. simp (iw.write_n-at, write_nibbles, ◌>>=◌, ◌>>◌) (ground arith);
  }

  pub write_each-Writes {ℓ} :
      {A : Type ℓ} (m : A → M w.Writer (Unit {0})) (f : A → List ℕ) (zs : List A)
      → All (λ a. Writes iw (m a) (f a) tt) zs
      → Writes iw (write_each w m zs) (bytes_of f zs) tt
  unfolding write_each
  write_each-Writes m f [] v = Writes-return iw tt tt refl
  write_each-Writes m f (a ∷ zs) v =
      Writes-bind iw _ (f a) (bytes_of f zs) v.0 (write_each-Writes m f zs v.1)

module _ {r : BytesIterator} (ir : IsBytesIterator r) where
  -- A byte that is not there reads as 0.
  pub Reads-flag :
      (b : Bool) (x : ℕ) → (b ≡ false → x ≡ 0) → Reads ir (when b 0 r.next_byte) (flag_bytes b x) x
  unfolding flag_bytes
  Reads-flag true x h = Reads-byte ir x
  Reads-flag false x h = rw (h refl) (Reads-pure ir 0)

pub high_nibble : (a b : ℕ) → b < 16 → (a * 16 + b) / 2 ^ 4 ≡ a
high_nibble a b q = omega arith

pub low_nibble : (a b : ℕ) → b < 16 → bit_and (a * 16 + b) 0xf ≡ b
low_nibble a b q = bit_and_mask 4 (a * 16 + b) ∙ omega arith

-- Items of one size.
pub length-bytes_of {ℓ} :
    {A : Type ℓ} (k : ℕ) (f : A → List ℕ) (zs : List A)
    → All (λ a. length (f a) ≡ k) zs
    → length (bytes_of f zs) ≡ k * length zs
length-bytes_of k f [] v = omega arith
length-bytes_of k f (a ∷ zs) v =
    omega (arith, v.0, length-append (f a) (bytes_of f zs), length-bytes_of k f zs v.1)

-- Eight flags in a byte, the first one highest.
unfoldable pub flags_byte : Bool → Bool → Bool → Bool → Bool → Bool → Bool → Bool → ℕ
flags_byte a b c d e f g h =
    digit a * 128
    + digit b * 64
    + digit c * 32
    + digit d * 16
    + digit e * 8
    + digit f * 4
    + digit g * 2
    + digit h

pub record HasFlags (x : ℕ) (a b c d e f g h : Bool) : Type 0 where
  pub bit7 : has_bit x 0x80 ≡ a
  pub bit6 : has_bit x 0x40 ≡ b
  pub bit5 : has_bit x 0x20 ≡ c
  pub bit4 : has_bit x 0x10 ≡ d
  pub bit3 : has_bit x 0x8 ≡ e
  pub bit2 : has_bit x 0x4 ≡ f
  pub bit1 : has_bit x 0x2 ≡ g
  pub bit0 : has_bit x 0x1 ≡ h

pub flags_byte-HasFlags :
    (a b c d e f g h : Bool) → HasFlags (flags_byte a b c d e f g h) a b c d e f g h
unfolding flags_byte
flags_byte-HasFlags a b c d e f g h =
    let la = digit-le a in
    let lb = digit-le b in
    let lc = digit-le c in
    let ld = digit-le d in
    let le = digit-le e in
    let lf = digit-le f in
    let lg = digit-le g in
    let lh = digit-le h in
    record {
      bit7 = has_bit-digit 7 _ a (omega arith);
      bit6 = has_bit-digit 6 _ b (omega arith);
      bit5 = has_bit-digit 5 _ c (omega arith);
      bit4 = has_bit-digit 4 _ d (omega arith);
      bit3 = has_bit-digit 3 _ e (omega arith);
      bit2 = has_bit-digit 2 _ f (omega arith);
      bit1 = has_bit-digit 1 _ g (omega arith);
      bit0 = has_bit-digit 0 _ h (omega arith);
    }
