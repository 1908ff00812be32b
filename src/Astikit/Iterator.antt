-- ===== src/Astikit/Iterator.antt =====
-- `astikit.BytesIterator`.
use go_astits.Base.{
  ℕ, ◌+◌, ◌<◌, ◌≤◌, ◌≡◌, List, [], ◌∷◌, ◌++◌, Bool, ltb, length, drop, M, ok, err, short_read,
}

pub record BytesIterator : Type 1 where
  pub Iter : Type 0
  -- `NewBytesIterator`
  pub new : List ℕ → Iter
  pub next_byte : M Iter ℕ
  -- `NextBytes` and `NextBytesNoCopy`: whether the bytes are copied does not show in their values
  pub next_bytes : ℕ → M Iter (List ℕ)
  pub seek : ℕ → M Iter (Unit {0})
  -- `Seek(-n)` and `NextBytes(-n)`, of which nothing is assumed
  pub seek_below : ℕ → M Iter (Unit {0})
  pub next_bytes_below : ℕ → M Iter (List ℕ)
  -- `Skip(n)` and `Skip(-n)`
  pub skip : ℕ → M Iter (Unit {0})
  pub skip_back : ℕ → M Iter (Unit {0})
  -- `Offset`, `Len` and `HasBytesLeft`
  pub offset : Iter → ℕ
  pub len : Iter → ℕ
  pub has_bytes_left : Iter → Bool
  -- `Dump`: all that is left
  pub dump : M Iter (List ℕ)

-- `at bs o` is the iterator over `bs` whose offset is `o`. A read that does not fit is an error.
pub record IsBytesIterator (r : BytesIterator) : Type 0 where
  pub at : List ℕ → ℕ → r.Iter
  pub new-at : (bs : List ℕ) → r.new bs ≡ at bs 0
  pub next_byte-at :
      (b : ℕ) (rest bs : List ℕ) (o : ℕ)
      → drop o bs ≡ b ∷ rest
      → r.next_byte (at bs o) ≡ ok (b, at bs (o + 1))
  pub next_byte-end : (bs : List ℕ) (o : ℕ) → length bs ≤ o → r.next_byte (at bs o) ≡ err short_read
  pub next_bytes-at :
      (xs rest bs : List ℕ) (o : ℕ)
      → 0 < length xs
      → drop o bs ≡ xs ++ rest
      → r.next_bytes (length xs) (at bs o) ≡ ok (xs, at bs (o + length xs))
  pub next_bytes-none :
      (bs : List ℕ) (o : ℕ) → o ≤ length bs → r.next_bytes 0 (at bs o) ≡ ok ([], at bs o)
  pub next_bytes-end :
      (n : ℕ) (bs : List ℕ) (o : ℕ) → length bs < o + n → r.next_bytes n (at bs o) ≡ err short_read
  pub seek-at : (n : ℕ) (bs : List ℕ) (o : ℕ) → r.seek n (at bs o) ≡ ok (tt, at bs n)
  pub skip-at : (n : ℕ) (bs : List ℕ) (o : ℕ) → r.skip n (at bs o) ≡ ok (tt, at bs (o + n))
  pub skip_back-at :
      (n : ℕ) (bs : List ℕ) (o : ℕ) → r.skip_back n (at bs (o + n)) ≡ ok (tt, at bs o)
  pub offset-at : (bs : List ℕ) (o : ℕ) → r.offset (at bs o) ≡ o
  pub len-at : (bs : List ℕ) (o : ℕ) → r.len (at bs o) ≡ length bs
  pub has_bytes_left-at : (bs : List ℕ) (o : ℕ) → r.has_bytes_left (at bs o) ≡ ltb o (length bs)
  pub dump-at :
      (bs : List ℕ) (o : ℕ) → o ≤ length bs → r.dump (at bs o) ≡ ok (drop o bs, at bs (length bs))
