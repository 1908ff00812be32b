-- ===== src/Descriptor/Lists/Items.antt =====
-- Items of one size, written and read one after the other.
use go_astits.Base.{ℕ, ◌*◌, ◌%◌, ◌<◌, ◌≡◌, refl, List, [], ◌∷◌, length, arith, ◌>>=◌, pure, M, All}
use go_astits.Astikit.{BytesIterator, IsBytesIterator, BitsWriter, IsBitsWriter}
use go_astits.Codec.{Reads, Writes}
use go_astits.Cursor.Reads.{ReadsTo-last, bytes_of, items_to-ReadsTo}
use go_astits.Descriptor.Frame.{Carries, carries}
use go_astits.Descriptor.Frame.{write_each-Writes, length-bytes_of}
use go_astits.Cursor.{items_to}
use go_astits.Descriptor.Lists.{write_each}

-- A part of `items` that are each written and read in `k` bytes.
module _ {w : BitsWriter} (iw : IsBitsWriter w) {r : BytesIterator} (ir : IsBytesIterator r) where
  pub record IsItem {A : Type 0} (k : ℕ) (m : A → M w.Writer (Unit {0})) (p : M r.Iter A)
      (f : A → List ℕ) (a : A) : Type 0 where
    pub size : length (f a) ≡ k
    pub put : Writes iw (m a) (f a) tt
    pub get : Reads ir p (f a) a

  module _ {A : Type 0} (k : ℕ) (m : A → M w.Writer (Unit {0})) (p : M r.Iter A)
      (f : A → List ℕ) where
    sizes : (zs : List A) → All (IsItem k m p f) zs → All (λ a. length (f a) ≡ k) zs
    sizes [] v = tt
    sizes (a ∷ zs) v = (v.0.size, sizes zs v.1)

    puts : (zs : List A) → All (IsItem k m p f) zs → All (λ a. Writes iw (m a) (f a) tt) zs
    puts [] v = tt
    puts (a ∷ zs) v = (v.0.put, puts zs v.1)

    gets : (zs : List A) → All (IsItem k m p f) zs → All (λ a. Reads ir p (f a) a) zs
    gets [] v = tt
    gets (a ∷ zs) v = (v.0.get, gets zs v.1)

    pub list-Carries :
        {D : Type 0} (zs : List A) (make : List A → D)
        → ((a : A) → 0 < length (f a))
        → All (IsItem k m p f) zs
        → k * length zs < 256
        → Carries iw ir
            (write_each w m zs)
            (k * length zs % 256)
            (λ e. do items ← items_to r e p; pure (make items))
            (make zs)
    list-Carries zs make l v s =
        carries iw ir (bytes_of f zs) (omega (arith, length-bytes_of k f zs (sizes zs v)))
          (write_each-Writes iw m f zs (puts zs v))
          (λ e. ReadsTo-last ir e _ (items_to-ReadsTo ir p f l e zs (gets zs v)) refl)
