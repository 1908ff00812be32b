-- ===== src/Cursor.antt =====
-- Reads up to an offset that the code has fixed: the patterns that the parsing of descriptors and
-- of tables repeats.
pub mod Reads
use go_astits.Base.{
  exhausted, ℕ, zero, suc, ◌-◌, List, [], ◌∷◌, ltb, if◌then◌else◌, M, pure, fault, ◌>>=◌, ℤ, pos,
  negsuc, sub_ℕ,
}
use go_astits.Astikit.{BytesIterator}

module _ (r : BytesIterator) where
  open r use {Iter, next_byte, next_bytes, next_bytes_below, offset}

  -- `NextBytes(z)`
  unfoldable pub next_bytes_int : ℤ → M Iter (List ℕ)
  next_bytes_int (pos n) = next_bytes n
  next_bytes_int (negsuc n) = next_bytes_below (suc n)

  -- `NextBytes(offsetEnd - i.Offset())`
  unfoldable pub bytes_to : ℕ → M Iter (List ℕ)
  bytes_to offset_end i = next_bytes_int (sub_ℕ offset_end (offset i)) i

  -- `if i.Offset() < offsetEnd { NextBytes(offsetEnd - i.Offset()) }`
  unfoldable pub bytes_left : ℕ → M Iter (List ℕ)
  bytes_left offset_end i =
      if ltb (offset i) offset_end then next_bytes (offset_end - offset i) i else pure [] i

  -- A length in a byte, and xs many bytes.
  unfoldable pub counted_bytes : M Iter (List ℕ)
  counted_bytes = do length ← next_byte; next_bytes length

  -- `for i.Offset() < offsetEnd { item }`, on fuel. Without fuel the loop is unfinished.
  unfoldable pub until {ℓ} : {A : Type ℓ} → ℕ → ℕ → M Iter A → M Iter (List A)
  until zero offset_end item i = if ltb (offset i) offset_end then exhausted i else pure [] i
  until (suc fuel) offset_end item i =
      if ltb (offset i) offset_end
      then (do a ← item; xs ← until fuel offset_end item; pure (a ∷ xs)) i
      else pure [] i

  -- A turn that takes a byte or more needs no more turns than there are bytes.
  unfoldable pub items_to {ℓ} : {A : Type ℓ} → ℕ → M Iter A → M Iter (List A)
  items_to offset_end item i = until (offset_end - offset i) offset_end item i
