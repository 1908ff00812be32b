-- ===== src/Astikit/Writer.antt =====
-- `astikit.BitsWriter`, and `BitsWriterBatch`, which keeps the first error and skips what follows:
-- in the model the do block stops there.
use go_astits.Base.{
  ℕ, zero, suc, ◌+◌, ◌-◌, ◌*◌, ◌/◌, ◌%◌, ◌^◌, ◌≡◌, List, [], ◌∷◌, ◌++◌, take, replicate, length,
  Bool, M, ok,
}
use go_astits.Bits.{digit}

pub record BitsWriter : Type 1 where
  pub Writer : Type 0
  -- `Write`, which tells the types of its argument apart
  pub write_bool : Bool → M Writer (Unit {0})
  pub write_uint8 : ℕ → M Writer (Unit {0})
  pub write_uint16 : ℕ → M Writer (Unit {0})
  pub write_uint32 : ℕ → M Writer (Unit {0})
  pub write_bytes : List ℕ → M Writer (Unit {0})
  -- `WriteBytesN(bs, n, padding)`
  pub write_bytes_n : List ℕ → ℕ → ℕ → M Writer (Unit {0})
  -- `WriteN(x, n)`: the `n` low bits of `x`, the highest first
  pub write_n : ℕ → ℕ → M Writer (Unit {0})

-- A number `v` of `m` bits goes out, the highest byte first; up to 7 bits are kept.
module _ {W : Type 0} (at : List ℕ → ℕ → ℕ → W) where
  abbrev pub emit_loop : ℕ → List ℕ → ℕ → ℕ → W
  emit_loop zero out v m = at out v m
  emit_loop (suc bytes) out v m =
      emit_loop bytes (out ++ (v / 2 ^ (m - 8) ∷ [])) (v % 2 ^ (m - 8)) (m - 8)

  abbrev pub emit : List ℕ → ℕ → ℕ → W
  emit out v m = emit_loop (m / 8) out v m

-- `at out v k` is the writer that has written the bytes `out`, and keeps the `k` bits of `v` until
-- they fill a byte. The `io.Writer` under it takes every byte.
pub record IsBitsWriter (w : BitsWriter) : Type 0 where
  pub at : List ℕ → ℕ → ℕ → w.Writer
  pub write_n-at :
      (x n : ℕ) (out : List ℕ) (v k : ℕ)
      → w.write_n x n (at out v k) ≡ ok (tt, emit at out (v * 2 ^ n + x % 2 ^ n) (k + n))
  pub write_bool-at :
      (b : Bool) (out : List ℕ) (v k : ℕ)
      → w.write_bool b (at out v k) ≡ ok (tt, emit at out (v * 2 + digit b) (k + 1))
  pub write_uint8-at :
      (x : ℕ) (out : List ℕ) → w.write_uint8 x (at out 0 0) ≡ ok (tt, at (out ++ (x ∷ [])) 0 0)
  pub write_uint16-at :
      (x : ℕ) (out : List ℕ)
      → w.write_uint16 x (at out 0 0) ≡ ok (tt, at (out ++ (x / 256 ∷ x % 256 ∷ [])) 0 0)
  pub write_uint32-at :
      (x : ℕ) (out : List ℕ)
      → w.write_uint32 x (at out 0 0)
        ≡ ok (tt, at (out ++ (x / 2 ^ 24 ∷ x / 2 ^ 16 % 256 ∷ x / 256 % 256 ∷ x % 256 ∷ [])) 0 0)
  pub write_bytes-at :
      (xs out : List ℕ) → w.write_bytes xs (at out 0 0) ≡ ok (tt, at (out ++ xs) 0 0)
  pub write_bytes_n-at :
      (xs : List ℕ) (n padding : ℕ) (out : List ℕ)
      → w.write_bytes_n xs n padding (at out 0 0)
        ≡ ok (tt, at (out ++ (take n xs ++ replicate (n - length xs) padding)) 0 0)

-- A writer into a `bytes.Buffer`: a new one, and the bytes that have gone through, which are those
-- that a callback of `SetWriteCallback` sees.
pub record Buffer (w : BitsWriter) : Type 0 where
  pub empty : w.Writer
  pub written : w.Writer → List ℕ

pub record IsBuffer {w : BitsWriter} (iw : IsBitsWriter w) (b : Buffer w) : Type 0 where
  pub empty-at : b.empty ≡ iw.at [] 0 0
  pub written-at : (out : List ℕ) → b.written (iw.at out 0 0) ≡ out
