-- ===== src/Cursor/Reads.antt =====
-- The relation of a reader that stops at a fixed offset to the bytes that it takes.
use go_astits.Base.{
  ℕ, zero, suc, ◌+◌, ◌-◌, ◌<◌, ◌≤◌, ◌≡◌, refl, ap, subst, ◌∙◌, map, List, [], ◌∷◌, ◌++◌,
  append_assoc, arith, length, drop, length-append, length-drop, M, ok, pure, All, lt→ltb, le→ltb,
  sub_ℕ, pos, le→leb, ◌>>=◌,
}
use go_astits.Astikit.{BytesIterator, IsBytesIterator}
use go_astits.Codec.{behind, Reads}
use go_astits.Cursor.{next_bytes_int, bytes_to, bytes_left, counted_bytes, until, items_to}

-- The bytes of a list of items.
abbrev pub bytes_of {ℓ} : {A : Type ℓ} → (A → List ℕ) → List A → List ℕ
bytes_of f [] = []
bytes_of f (a ∷ zs) = f a ++ bytes_of f zs

module _ {r : BytesIterator} (ir : IsBytesIterator r) where
  open ir use {at}

  -- `p` takes `bytes`, which end at the offset `e`, and gives `a`.
  pub record ReadsTo {ℓ} {A : Type ℓ} (e : ℕ) (p : M r.Iter A) (bytes : List ℕ) (a : A)
      : Type ℓ where
    pub run :
        (rest bs : List ℕ) (o : ℕ)
        → drop o bs ≡ bytes ++ rest
        → o + length bytes ≡ e
        → p (at bs o) ≡ ok (a, at bs e)

  pub Reads-ReadsTo {ℓ} :
      {A : Type ℓ} (e : ℕ) {p : M r.Iter A} {xs : List ℕ} {a : A}
      → Reads ir p xs a
      → ReadsTo e p xs a
  Reads-ReadsTo e {xs} {a} h = record {
    run = λ rest bs o d k. h.run rest bs o d ∙ ap (λ n. ok (a, at bs n)) k;
  }

  pub ReadsTo-bind {ℓ κ} :
      {A : Type ℓ} {B : Type κ} (e : ℕ) {p : M r.Iter A} (f : A → M r.Iter B) (xs ys : List ℕ)
      {a : A} {b : B}
      → Reads ir p xs a
      → ReadsTo e (f a) ys b
      → ReadsTo e (p >>= f) (xs ++ ys) b
  ReadsTo-bind e f xs ys {a} {b} hp hf = record {
    run = λ rest bs o d k.
        let d' : drop o bs ≡ xs ++ (ys ++ rest) = d ∙ append_assoc xs ys rest in
        rw (hp.run (ys ++ rest) bs o d', ◌>>=◌)
          (hf.run rest bs (o + length xs) (behind xs (ys ++ rest) bs o d')
            (omega (arith, length-append xs ys)));
  }

  pub ReadsTo-last {ℓ κ} :
      {A : Type ℓ} {B : Type κ} (e : ℕ) {p : M r.Iter A} (f : A → M r.Iter B) {xs : List ℕ} {a : A}
      {b : B}
      → ReadsTo e p xs a
      → f a ≡ pure b
      → ReadsTo e (p >>= f) xs b
  ReadsTo-last e f {xs} {a} {b} hp q = record {
    run =
        λ rest bs o d k. rw (hp.run rest bs o d k, ◌>>=◌) (ap (λ (g : M r.Iter _). g (at bs e)) q);
  }

  pub bytes_left-ReadsTo : (e : ℕ) (xs : List ℕ) → ReadsTo e (bytes_left r e) xs xs
  unfolding bytes_left
  bytes_left-ReadsTo e [] = record {
    run = λ rest bs o d k.
        rw (ir.offset-at bs o, le→ltb o e (omega arith))
          (ap (λ n. ok ([], at bs n)) {x = o} {y = e} (omega arith));
  }
  bytes_left-ReadsTo e (x ∷ xs) = record {
    run = λ rest bs o d k.
        let n : e - o ≡ length (x ∷ xs) = omega arith in
        rw (ir.offset-at bs o, lt→ltb o e (omega arith), n)
          (ir.next_bytes-at (x ∷ xs) rest bs o (omega arith) d ∙ ap (λ n. ok (x ∷ xs, at bs n)) k);
  }

  sub_ℕ-le : (a b : ℕ) → b ≤ a → sub_ℕ a b ≡ pos (a - b)
  sub_ℕ-le a b h = rw (le→leb b a h) refl

  pub bytes_to-ReadsTo : (e : ℕ) (xs : List ℕ) → 0 < length xs → ReadsTo e (bytes_to r e) xs xs
  unfolding bytes_to next_bytes_int
  bytes_to-ReadsTo e xs l = record {
    run = λ rest bs o d k.
        let n : e - o ≡ length xs = omega arith in
        rw (ir.offset-at bs o, sub_ℕ-le e o (omega arith), n)
          (ir.next_bytes-at xs rest bs o l d ∙ ap (λ n. ok (xs, at bs n)) k);
  }

  next_bytes-behind :
      (xs rest bs : List ℕ) (o : ℕ)
      → o ≤ length bs
      → drop o bs ≡ xs ++ rest
      → r.next_bytes (length xs) (at bs o) ≡ ok (xs, at bs (o + length xs))
  next_bytes-behind [] rest bs o h d =
      ir.next_bytes-none bs o h ∙ ap (λ n. ok ([], at bs n)) {x = o} {y = o + 0} (omega arith)
  next_bytes-behind (x ∷ xs) rest bs o h d = ir.next_bytes-at (x ∷ xs) rest bs o (omega arith) d

  -- Bytes whose number stands before them are read whole.
  pub counted_bytes-Reads : (xs : List ℕ) → Reads ir (counted_bytes r) (length xs ∷ xs) xs
  unfolding counted_bytes
  counted_bytes-Reads xs = record {
    run = λ rest bs o d.
        rw (ir.next_byte-at (length xs) (xs ++ rest) bs o d, ◌>>=◌)
          (next_bytes-behind xs rest bs (o + 1) (omega (arith, length-drop o bs, ap length d))
              (behind (length xs ∷ []) (xs ++ rest) bs o d)
            ∙ ap (λ n. ok (xs, at bs n)) {x = o + 1 + length xs} {y = o + suc (length xs)}
                (omega arith));
  }

  -- Items that each take a byte or more are read one after the other, up to the end. The item `t`
  -- is read as `value t`.
  module _ {ℓ κ} {A : Type ℓ} {T : Type κ} (item : M r.Iter A) (value : T → A) (f : T → List ℕ)
      (l : (t : T) → 0 < length (f t)) where
    until-ReadsTo :
        (zs : List T)
        → All (λ t. Reads ir item (f t) (value t)) zs
        → (e fuel : ℕ) → length (bytes_of f zs) ≤ fuel
        → ReadsTo e (until r fuel e item) (bytes_of f zs) (map value zs)
    unfolding until
    until-ReadsTo [] v e zero h = record {
      run = λ rest bs o d k.
          rw (ir.offset-at bs o, le→ltb o e (omega arith))
            (ap (λ n. ok ([], at bs n)) {x = o} {y = e} (omega arith));
    }
    until-ReadsTo [] v e (suc fuel) h = record {
      run = λ rest bs o d k.
          rw (ir.offset-at bs o, le→ltb o e (omega arith))
            (ap (λ n. ok ([], at bs n)) {x = o} {y = e} (omega arith));
    }
    until-ReadsTo (a ∷ zs) v e zero h =
        absurd (omega (arith, l a, length-append (f a) (bytes_of f zs)))
    until-ReadsTo (a ∷ zs) v e (suc fuel) h = record {
      run = λ rest bs o d k.
          rw
            (
              ir.offset-at bs o,
              lt→ltb o e (omega (arith, l a, length-append (f a) (bytes_of f zs))),
            )
            ((ReadsTo-bind e _ (f a) (bytes_of f zs) v.0 (
                ReadsTo-last e _
                  (until-ReadsTo zs v.1 e fuel
                    (omega (arith, l a, length-append (f a) (bytes_of f zs))))
                  refl)).run
              rest bs o d k);
    }

    pub values-ReadsTo :
        (e : ℕ) (zs : List T)
        → All (λ t. Reads ir item (f t) (value t)) zs
        → ReadsTo e (items_to r e item) (bytes_of f zs) (map value zs)
    unfolding items_to
    values-ReadsTo e zs v = record {
      run = λ rest bs o d k.
          let n : e - o ≡ length (bytes_of f zs) = omega arith in
          rw (ir.offset-at bs o, n)
            ((until-ReadsTo zs v e (length (bytes_of f zs)) (omega arith)).run rest bs o d k);
    }

  map-same {ℓ} : {A : Type ℓ} (zs : List A) → map (λ a. a) zs ≡ zs
  map-same [] = refl
  map-same (a ∷ zs) = ap (λ t. a ∷ t) (map-same zs)

  pub items_to-ReadsTo {ℓ} :
      {A : Type ℓ} (item : M r.Iter A) (f : A → List ℕ)
      → ((a : A) → 0 < length (f a))
      → (e : ℕ) (zs : List A) → All (λ a. Reads ir item (f a) a) zs
      → ReadsTo e (items_to r e item) (bytes_of f zs) zs
  items_to-ReadsTo item f l e zs v =
      subst (λ t. ReadsTo e (items_to r e item) (bytes_of f zs) t) (map-same zs)
        (values-ReadsTo item (λ a. a) f l e zs v)
