-- ===== src/Base/Results.antt =====
-- Results of Go functions. Errors are values; a Go panic is an outcome of its own.
use mathlib.Core.Option.{Option, none, some}
use mathlib.Core.Bool.{Bool, true, false}
use mathlib.Core.Path.{◌≡◌, refl}

-- The errors that the code tells apart, without the text that is wrapped round them.
pub data Error : Type 0 where
  -- `BytesIterator.NextByte` and `NextBytes` past the end
  short_read : Error
  -- `io.Writer` refuses
  write_failed : Error
  -- `ErrNoMorePackets`, `ErrPacketMustStartWithASyncByte`
  no_more_packets packet_must_start_with_a_sync_byte : Error
  -- `writePacket`: the payload does not fit
  payload_too_big : Error
  -- `Table CRC32 %x != computed CRC32 %x`
  crc32_mismatch : Error
  -- `writePSISection: table %s is not implemented`
  table_not_implemented : Error
  -- `ErrPIDNotFound`, `ErrPIDAlreadyExists`, `ErrPCRPIDInvalid`
  pid_not_found pid_already_exists pcr_pid_invalid : Error

-- `panic`: a nil dereference, an index or a count below zero. `unfinished`: a loop on fuel has used up
-- its fuel before its end, as one does that never ends.
pub data Result {ℓ} (A : Type ℓ) : Type ℓ where
  ok : A → Result A
  err : Error → Result A
  panic : Result A
  unfinished : Result A

-- A call that reads or changes a state of type `S` (an iterator, a writer).
abbrev pub M {ℓ κ} : Type ℓ → Type κ → Type (ℓ ⊔ κ)
M S A = S → Result (A × S)

infixl 5 ◌>>=◌ ◌>>◌
abbrev pub ◌>>=◌ {ℓ κ λ'} : {S : Type ℓ} {A : Type κ} {B : Type λ'} → M S A → (A → M S B) → M S B
◌>>=◌ m f s = elim (m s) [
  | ok (a, s') ↦ f a s'
  | err e ↦ err e
  | panic ↦ panic
  | unfinished ↦ unfinished
]

abbrev pub ◌>>◌ {ℓ κ} : {S : Type ℓ} {B : Type κ} → M S (Unit {0}) → M S B → M S B
m >> k = m >>= λ _. k

abbrev pub pure {ℓ κ} : {S : Type ℓ} {A : Type κ} → A → M S A
pure a s = ok (a, s)

abbrev pub fail {ℓ κ} : {S : Type ℓ} {A : Type κ} → Error → M S A
fail e s = err e

-- `m`, where the code does not look at the error. A write that fails puts nothing out.
abbrev pub ignore_error {ℓ} : {S : Type ℓ} → M S (Unit {0}) → M S (Unit {0})
ignore_error m s = elim (m s) [
  | ok z ↦ ok z
  | err e ↦ ok (tt, s)
  | panic ↦ panic
  | unfinished ↦ unfinished
]

abbrev pub fault {ℓ κ} : {S : Type ℓ} {A : Type κ} → M S A
fault s = panic

-- A loop that has used up its fuel.
abbrev pub exhausted {ℓ κ} : {S : Type ℓ} {A : Type κ} → M S A
exhausted s = unfinished

-- `p.Field` through a pointer that may be nil.
abbrev pub deref {ℓ κ} : {S : Type ℓ} {A : Type κ} → Option A → M S A
deref none = fault
deref (some a) = pure a

-- `if c { m }`, for a call that gives a number of bytes.
abbrev pub when {ℓ κ} : {S : Type ℓ} {A : Type κ} → Bool → A → M S A → M S A
when true z m = m
when false z m = pure z

-- `if c { x, err = m }` for a pointer that is nil otherwise.
abbrev pub optional {ℓ κ} : {S : Type ℓ} {A : Type κ} → Bool → M S A → M S (Option A)
optional true m = m >>= λ a. pure (some a)
optional false m = pure none

-- `m`, started in the state `s`, comes to `z`.
pub record Runs {ℓ κ} {S : Type ℓ} {A : Type κ} (m : M S A) (s : S) (z : Result (A × S))
    : Type (ℓ ⊔ κ) where
  pub run : m s ≡ z

-- A step of a do block that succeeds, and what follows.
pub Runs-ok {ℓ κ μ} :
    {S : Type ℓ} {A : Type κ} {B : Type μ} {m : M S A} (f : A → M S B) {s s' : S} {a : A}
    {z : Result (B × S)}
    → Runs m s (ok (a, s'))
    → Runs (f a) s' z
    → Runs (m >>= f) s z
Runs-ok f h k = record { run = rw (h.run, ◌>>=◌) k.run }

-- A step that fails.
pub Runs-err {ℓ κ μ} :
    {S : Type ℓ} {A : Type κ} {B : Type μ} {m : M S A} (f : A → M S B) {s : S} {e : Error}
    → Runs m s (err e)
    → Runs (m >>= f) s (err e)
Runs-err f h = record { run = rw (h.run, ◌>>=◌) refl }

pub runs {ℓ κ} :
    {S : Type ℓ} {A : Type κ} (m : M S A) {s : S} {z : Result (A × S)} → m s ≡ z → Runs m s z
runs m h = record { run = h }

-- A computation that looks at no state.
abbrev pub lift {ℓ} : {S A : Type ℓ} → Result A → M S A
lift (ok a) s = ok (a, s)
lift (err e) s = err e
lift panic s = panic
lift unfinished s = unfinished
