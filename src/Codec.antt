-- ===== src/Codec.antt =====
-- What a writer puts out and what a reader takes off, as relations to a list of bytes, with the
-- rules that compose them. A round trip is a `Writes` and a `Reads` of the same bytes.
use go_astits.Base.{
  ◌/◌, ◌%◌, ℕ, ◌+◌, ◌<◌, ◌≡◌, refl, sym, ap, subst, ◌∙◌, Bool, true, false, Option, some, List, [],
  ◌∷◌, ◌++◌, append_assoc, append-nil, arith, length, drop, length-append, drop-append, drop-drop,
  M, ok, pure, if◌then◌else◌, if_false, ◌>>=◌, when, optional,
}
use go_astits.Astikit.{BytesIterator, IsBytesIterator, BitsWriter, IsBitsWriter}

pub behind : (xs ys bs : List ℕ) (o : ℕ) → drop o bs ≡ xs ++ ys → drop (o + length xs) bs ≡ ys
behind xs ys bs o e = drop-drop (length xs) o bs ∙ ap (drop (length xs)) e ∙ drop-append xs ys

-- From any point where `bytes` stand next, `p` gives `a` and stops behind them.
module _ {r : BytesIterator} (ir : IsBytesIterator r) where
  open ir use {at}

  pub record Reads {ℓ} {A : Type ℓ} (p : M r.Iter A) (bytes : List ℕ) (a : A) : Type ℓ where
    pub run :
        (rest bs : List ℕ) (o : ℕ)
        → drop o bs ≡ bytes ++ rest
        → p (at bs o) ≡ ok (a, at bs (o + length bytes))

  pub Reads-bind {ℓ κ} :
      {A : Type ℓ} {B : Type κ} {p : M r.Iter A} (f : A → M r.Iter B) (xs ys : List ℕ) {a : A}
      {b : B}
      → Reads p xs a
      → Reads (f a) ys b
      → Reads (p >>= f) (xs ++ ys) b
  Reads-bind f xs ys {a} {b} hp hf = record {
    run = λ rest bs o e.
        let e' : drop o bs ≡ xs ++ (ys ++ rest) = e ∙ append_assoc xs ys rest in
        rw (hp.run (ys ++ rest) bs o e', ◌>>=◌)
          (rw (hf.run rest bs (o + length xs) (behind xs (ys ++ rest) bs o e')) (
            ap (λ n. ok (b, at bs n)) {y = o + length (xs ++ ys)}
              (omega (arith, length-append xs ys))));
  }

  pub Reads-pure {ℓ} : {A : Type ℓ} (a : A) → Reads (pure a) [] a
  Reads-pure a = record { run = λ rest bs o e. ap (λ n. ok (a, at bs n)) {y = o + 0} (omega arith) }

  -- The last step of a do block.
  pub Reads-return {ℓ} : {A : Type ℓ} (a b : A) → a ≡ b → Reads (pure a) [] b
  Reads-return a b e = record {
    run = λ rest bs o h. rw e (ap (λ n. ok (b, at bs n)) {y = o + 0} (omega arith));
  }

  pub Reads-bytes : (n : ℕ) (xs : List ℕ) → 0 < n → length xs ≡ n → Reads (r.next_bytes n) xs xs
  Reads-bytes n xs l e = record {
    run = λ rest bs o h. rw (← e) (ir.next_bytes-at xs rest bs o (omega arith) h);
  }

  pub Reads-byte : (b : ℕ) → Reads r.next_byte (b ∷ []) b
  Reads-byte b = record { run = λ rest bs o h. ir.next_byte-at b rest bs o h }

  -- A step behind which nothing more is read.
  pub Reads-last {ℓ κ} :
      {A : Type ℓ} {B : Type κ} {p : M r.Iter A} (f : A → M r.Iter B) {xs : List ℕ} {a : A} {b : B}
      → Reads p xs a
      → Reads (f a) [] b
      → Reads (p >>= f) xs b
  Reads-last {p} f {xs} {b} h k =
      subst (λ t. Reads (p >>= f) t b) (append-nil xs) (Reads-bind f xs [] h k)

  -- The test `b` that the code makes is the flag `c` that the bytes were made for.
  pub Reads-when {ℓ} :
      {A : Type ℓ} {b c : Bool} (z : A) (p : M r.Iter A) {xs : List ℕ} {a : A}
      → b ≡ c
      → Reads (when c z p) xs a
      → Reads (when b z p) xs a
  Reads-when z p {xs} {a} e h = subst (λ t. Reads (when t z p) xs a) (sym e) h

  pub Reads-optional {ℓ} :
      {A : Type ℓ} {b c : Bool} (p : M r.Iter A) {xs : List ℕ} {o : Option A}
      → b ≡ c
      → Reads (optional c p) xs o
      → Reads (optional b p) xs o
  Reads-optional p {xs} {o} e h = subst (λ t. Reads (optional t p) xs o) (sym e) h

  pub Reads-some {ℓ} :
      {A : Type ℓ} {p : M r.Iter A} (xs : List ℕ) (a : A)
      → Reads p xs a
      → Reads (optional true p) xs (some a)
  Reads-some xs a h = Reads-last _ h (Reads-return (some a) (some a) refl)

-- The writer stands at a byte, puts out `bytes` whole, and gives `a`.
module _ {w : BitsWriter} (iw : IsBitsWriter w) where
  open iw use {at}

  pub record Writes {ℓ} {A : Type ℓ} (m : M w.Writer A) (bytes : List ℕ) (a : A) : Type ℓ where
    pub run : (out : List ℕ) → m (at out 0 0) ≡ ok (a, at (out ++ bytes) 0 0)

  pub Writes-bind {ℓ κ} :
      {A : Type ℓ} {B : Type κ} {m : M w.Writer A} (f : A → M w.Writer B) (xs ys : List ℕ) {a : A}
      {b : B}
      → Writes m xs a
      → Writes (f a) ys b
      → Writes (m >>= f) (xs ++ ys) b
  Writes-bind f xs ys {a} {b} hm hf = record {
    run = λ out.
        rw (hm.run out, ◌>>=◌)
          (rw (hf.run (out ++ xs)) (ap (λ t. ok (b, at t 0 0)) (append_assoc out xs ys)));
  }

  pub Writes-last {ℓ κ} :
      {A : Type ℓ} {B : Type κ} {m : M w.Writer A} (f : A → M w.Writer B) {xs : List ℕ} {a : A}
      {b : B}
      → Writes m xs a
      → Writes (f a) [] b
      → Writes (m >>= f) xs b
  Writes-last {m} f {xs} {b} h k =
      subst (λ t. Writes (m >>= f) t b) (append-nil xs) (Writes-bind f xs [] h k)

  pub Writes-return {ℓ} : {A : Type ℓ} (a b : A) → a ≡ b → Writes (pure a) [] b
  Writes-return a b e = record {
    run = λ out. rw e (ap (λ t. ok (b, at t 0 0)) (sym (append-nil out)));
  }

  -- The rule at functions that give the number of bytes.
  pub Writes-step {κ} :
      {B : Type κ} {m : M w.Writer ℕ} (f : ℕ → M w.Writer B) (xs ys : List ℕ) {b : B}
      → Writes m xs (length xs)
      → Writes (f (length xs)) ys b
      → Writes (m >>= f) (xs ++ ys) b
  Writes-step f xs ys hm hf = Writes-bind f xs ys hm hf

  pub Writes-bytes {ℓ} :
      {A : Type ℓ} {m : M w.Writer A} {xs ys : List ℕ} {a : A}
      → xs ≡ ys
      → Writes m xs a
      → Writes m ys a
  Writes-bytes {m} {a} e h = subst (λ t. Writes m t a) e h

  pub Writes-if_false {ℓ} :
      {A : Type ℓ} {b : Bool} (x : M w.Writer A) {y : M w.Writer A} {xs : List ℕ} {a : A}
      → b ≡ false
      → Writes y xs a
      → Writes (if b then x else y) xs a
  Writes-if_false x {y} {xs} {a} e h = subst (λ t. Writes t xs a) (sym (if_false x y e)) h

  pub Writes-uint8 : (x : ℕ) → Writes (w.write_uint8 x) (x ∷ []) tt
  Writes-uint8 x = record { run = λ out. iw.write_uint8-at x out }

  pub Writes-uint16 : (x : ℕ) → Writes (w.write_uint16 x) (x / 256 ∷ x % 256 ∷ []) tt
  Writes-uint16 x = record { run = λ out. iw.write_uint16-at x out }

-- What `m` puts out, counting `n` bytes, `p` takes off again, whatever stands before and behind.
module _ {w : BitsWriter} (iw : IsBitsWriter w) {r : BytesIterator} (ir : IsBytesIterator r) where
  unfoldable pub RoundTrips {ℓ} : {A : Type ℓ} → M w.Writer ℕ → ℕ → M r.Iter A → A → Type ℓ
  RoundTrips m n p a = (bs : List ℕ) × (length bs ≡ n) × Writes iw m bs n × Reads ir p bs a
