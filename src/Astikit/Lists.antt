-- ===== src/Astikit/Lists.antt =====
-- An iterator over a list and a writer into a list, which have the laws that the code relies on.
use go_astits.Base.{
  replicate, ℕ, zero, suc, ◌+◌, ◌-◌, ◌*◌, ◌/◌, ◌%◌, ◌^◌, ◌<◌, ◌≤◌, ◌≡◌, refl, sym, ap, ◌∙◌, arith,
  List, [], ◌∷◌, ◌++◌, none, some, ltb, leb, le→leb, lt→leb, if◌then◌else◌, length, take, drop,
  get_elem?, length-append, length-drop, take-append, append_assoc, append-nil, M, ok, err, panic,
  unfinished, short_read, ◌>>◌, pure, if_true, if_false,
}
use go_astits.Bits.{digit}
use go_astits.Astikit.Iterator.{BytesIterator, IsBytesIterator}
use go_astits.Astikit.Writer.{BitsWriter, IsBitsWriter, Buffer, IsBuffer, emit}

abbrev read_byte : M (List ℕ × ℕ) ℕ
read_byte (bs, o) = elim (get_elem? bs o) [ none ↦ err short_read | some b ↦ ok (b, (bs, o + 1)) ]

abbrev read_bytes : ℕ → M (List ℕ × ℕ) (List ℕ)
read_bytes n (bs, o) =
    if leb (o + n) (length bs) then ok (take n (drop o bs), (bs, o + n)) else err short_read

abbrev pub list_iterator : BytesIterator
list_iterator = record {
  Iter = List ℕ × ℕ;
  new = λ bs. (bs, 0);
  next_byte = read_byte;
  next_bytes = read_bytes;
  seek = λ n i. ok (tt, (i.0, n));
  seek_below = λ n i. panic;
  next_bytes_below = λ n i. panic;
  skip = λ n i. ok (tt, (i.0, i.1 + n));
  skip_back = λ n i. ok (tt, (i.0, i.1 - n));
  offset = λ i. i.1;
  len = λ i. length i.0;
  has_bytes_left = λ i. ltb i.1 (length i.0);
  dump = λ i. ok (drop i.1 i.0, (i.0, length i.0));
}

get_elem?-drop : (b : ℕ) (rest bs : List ℕ) (o : ℕ) → drop o bs ≡ b ∷ rest → get_elem? bs o ≡ some b
get_elem?-drop b rest [] zero e = ap (λ t. get_elem? t 0) e
get_elem?-drop b rest (x ∷ bs) zero e = ap (λ t. get_elem? t 0) e
get_elem?-drop b rest [] (suc o) e = ap (λ t. get_elem? t 0) e
get_elem?-drop b rest (x ∷ bs) (suc o) e = get_elem?-drop b rest bs o e

get_elem?-end : (bs : List ℕ) (o : ℕ) → length bs ≤ o → get_elem? bs o ≡ none
get_elem?-end [] o h = refl
get_elem?-end (x ∷ bs) zero h = absurd (omega arith)
get_elem?-end (x ∷ bs) (suc o) h = get_elem?-end bs o (omega arith)

pub read_byte-at :
    (b : ℕ) (rest bs : List ℕ) (o : ℕ)
    → drop o bs ≡ b ∷ rest
    → read_byte (bs, o) ≡ ok (b, (bs, o + 1))
read_byte-at b rest bs o e = rw (read_byte, get_elem?-drop b rest bs o e) refl

pub read_byte-end : (bs : List ℕ) (o : ℕ) → length bs ≤ o → read_byte (bs, o) ≡ err short_read
read_byte-end bs o h = rw (read_byte, get_elem?-end bs o h) refl

pub read_bytes-at :
    (xs rest bs : List ℕ) (o : ℕ)
    → 0 < length xs
    → drop o bs ≡ xs ++ rest
    → read_bytes (length xs) (bs, o) ≡ ok (xs, (bs, o + length xs))
read_bytes-at xs rest bs o l e =
    let fits : o + length xs ≤ length bs =
      omega (arith, length-drop o bs, ap length e, length-append xs rest) in
    rw (le→leb (o + length xs) (length bs) fits, e, take-append xs rest) refl

pub read_bytes-none :
    (bs : List ℕ) (o : ℕ) → o ≤ length bs → read_bytes 0 (bs, o) ≡ ok ([], (bs, o))
read_bytes-none bs o h =
    if_true _ _ (le→leb (o + 0) (length bs) (omega arith))
    ∙ ap (λ (t : ℕ). ok ([], (bs, t))) {x = o + 0} {y = o} (omega arith)

pub read_bytes-end :
    (n : ℕ) (bs : List ℕ) (o : ℕ) → length bs < o + n → read_bytes n (bs, o) ≡ err short_read
read_bytes-end n bs o h = if_false _ _ (lt→leb (o + n) (length bs) h)

unfoldable pub list_iterator-IsBytesIterator : IsBytesIterator list_iterator
list_iterator-IsBytesIterator = record {
  at = λ bs o. (bs, o);
  new-at = λ bs. refl;
  next_byte-at = read_byte-at;
  next_byte-end = read_byte-end;
  next_bytes-at = read_bytes-at;
  next_bytes-none = read_bytes-none;
  next_bytes-end = read_bytes-end;
  seek-at = λ n bs o. refl;
  skip-at = λ n bs o. refl;
  skip_back-at = λ n bs o. ap (λ (t : ℕ). ok (tt, (bs, t))) {x = o + n - n} {y = o} (omega arith);
  offset-at = λ bs o. refl;
  len-at = λ bs o. refl;
  has_bytes_left-at = λ bs o. refl;
  dump-at = λ bs o h. refl;
}

abbrev ListWriter : Type 0
ListWriter = List ℕ × ℕ × ℕ

abbrev writer_at : List ℕ → ℕ → ℕ → ListWriter
writer_at out v k = (out, v, k)

abbrev put : ℕ → ℕ → M ListWriter (Unit {0})
put x n (out, v, k) = ok (tt, emit writer_at out (v * 2 ^ n + x % 2 ^ n) (k + n))

-- A value of `n` bits.
abbrev put_whole : ℕ → ℕ → M ListWriter (Unit {0})
put_whole x n (out, v, k) = ok (tt, emit writer_at out (v * 2 ^ n + x) (k + n))

abbrev put_bytes : List ℕ → M ListWriter (Unit {0})
put_bytes [] = pure tt
put_bytes (x ∷ xs) = do put_whole x 8; put_bytes xs

abbrev pub list_writer : BitsWriter
list_writer = record {
  Writer = ListWriter;
  write_bool = λ b. put_whole (digit b) 1;
  write_uint8 = λ x. put_whole x 8;
  write_uint16 = λ x. put_whole x 16;
  write_uint32 = λ x. put_whole x 32;
  write_bytes = put_bytes;
  write_bytes_n = λ xs n padding. put_bytes (take n xs ++ replicate (n - length xs) padding);
  write_n = put;
}

pub put_whole-8 :
    (x : ℕ) (out : List ℕ)
    → put_whole x 8 (writer_at out 0 0) ≡ ok (tt, writer_at (out ++ (x ∷ [])) 0 0)
put_whole-8 x out = ground arith

pub put_whole-16 :
    (x : ℕ) (out : List ℕ)
    → put_whole x 16 (writer_at out 0 0) ≡ ok (tt, writer_at (out ++ (x / 256 ∷ x % 256 ∷ [])) 0 0)
put_whole-16 x out = simp append_assoc (ground arith)

pub put_whole-32 :
    (x : ℕ) (out : List ℕ)
    → put_whole x 32 (writer_at out 0 0)
      ≡ ok (
        tt,
        writer_at (out ++ (x / 2 ^ 24 ∷ x / 2 ^ 16 % 256 ∷ x / 256 % 256 ∷ x % 256 ∷ [])) 0 0,
      )
put_whole-32 x out = simp append_assoc (ground arith)

pub put_bytes-at :
    (xs out : List ℕ) → put_bytes xs (writer_at out 0 0) ≡ ok (tt, writer_at (out ++ xs) 0 0)
put_bytes-at [] out = ap (λ t. ok (tt, writer_at t 0 0)) (sym (append-nil out))
put_bytes-at (x ∷ xs) out =
    ap
      (λ t. elim t [
        | ok (a, s) ↦ put_bytes xs s
        | err e ↦ err e
        | panic ↦ panic
        | unfinished ↦ unfinished
      ])
      (put_whole-8 x out)
    ∙ (put_bytes-at xs (out ++ (x ∷ []))
        ∙ ap (λ t. ok (tt, writer_at t 0 0)) (append_assoc out (x ∷ []) xs))

unfoldable pub list_writer-IsBitsWriter : IsBitsWriter list_writer
list_writer-IsBitsWriter = record {
  at = writer_at;
  write_n-at = λ x n out v k. refl;
  write_bool-at = λ b out v k. refl;
  write_uint8-at = put_whole-8;
  write_uint16-at = put_whole-16;
  write_uint32-at = put_whole-32;
  write_bytes-at = put_bytes-at;
  write_bytes_n-at =
      λ xs n padding out. put_bytes-at (take n xs ++ replicate (n - length xs) padding) out;
}

abbrev pub list_buffer : Buffer list_writer
list_buffer = record { empty = ([], 0, 0); written = λ i. i.0 }

unfoldable pub list_buffer-IsBuffer : IsBuffer list_writer-IsBitsWriter list_buffer
unfolding list_writer-IsBitsWriter
list_buffer-IsBuffer = record { empty-at = refl; written-at = λ out. refl }
