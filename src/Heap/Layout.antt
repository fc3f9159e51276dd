-- ===== src/Heap/Layout.antt =====
-- Headers and footers in memory.
use james_m.Base.{ℕ, ◌+◌, ◌≤◌, ◌<◌, ◌≡◌, ◌⊎◌, ◌∙◌, arith, some, ok}
use james_m.Memory.{Mem, store32}
use james_m.Memory.Words.{IsBytes, store32-IsBytes, load32-store32, load32-store32_ne}
use james_m.Memory.Regions.{SameOutside, SameOutside-store32, load32-SameOutside}
use james_m.SortedArray.{slot}
use james_m.SortedArray.Cells.{cells, cells_ext}
use james_m.Heap.{
  hh_magic, hh_is_hole, hh_size, hf_magic, hf_header, store_header, store_footer, hdr_magic,
  ftr_magic, the_heap,
}
use james_m.Kernel.{Kernel, VmHeap}

pub the_heap-some : (k : Kernel) {h : VmHeap} → k.kernel_heap ≡ some h → the_heap k ≡ ok h
unfolding the_heap
the_heap-some k e = rw e

-- A header of this kind and size stands at `p`.
pub record HeaderAt (m : Mem) (p is_hole size : ℕ) : Type 0 where
  pub magic : hh_magic m p ≡ hdr_magic
  pub hole : hh_is_hole m p ≡ is_hole
  pub size_field : hh_size m p ≡ size

-- A footer at `p` that names the header at `header`.
pub record FooterAt (m : Mem) (p header : ℕ) : Type 0 where
  pub magic : hf_magic m p ≡ ftr_magic
  pub names : hf_header m p ≡ header

module _ (m : Mem) (p : ℕ) where
  pub store_header-HeaderAt :
      (is_hole size : ℕ)
      → is_hole < 4294967296
      → size < 4294967296
      → HeaderAt (store_header m p is_hole size) p is_hole size
  store_header-HeaderAt is_hole size h k = record {
    magic =
        load32-store32_ne m2 (p + 8) p size (omega arith)
        ∙ load32-store32_ne m1 (p + 4) p is_hole (omega arith)
        ∙ load32-store32 m p hdr_magic (omega arith);
    hole =
        load32-store32_ne m2 (p + 8) (p + 4) size (omega arith)
        ∙ load32-store32 m1 (p + 4) is_hole h;
    size_field = load32-store32 m2 (p + 8) size k;
  }
    where
      m1 : Mem
      m1 = store32 m p hdr_magic

      m2 : Mem
      m2 = store32 m1 (p + 4) is_hole

  pub store_footer-FooterAt :
      (header : ℕ) → header < 4294967296 → FooterAt (store_footer m p header) p header
  store_footer-FooterAt header h = record {
    magic =
        load32-store32_ne (store32 m p ftr_magic) (p + 4) p header (omega arith)
        ∙ load32-store32 m p ftr_magic (omega arith);
    names = load32-store32 (store32 m p ftr_magic) (p + 4) header h;
  }

  pub store_header-IsBytes :
      (is_hole size : ℕ) → IsBytes m → IsBytes (store_header m p is_hole size)
  store_header-IsBytes is_hole size h =
      store32-IsBytes _ (p + 8) size
        (store32-IsBytes _ (p + 4) is_hole (store32-IsBytes m p hdr_magic h))

  pub store_footer-IsBytes : (header : ℕ) → IsBytes m → IsBytes (store_footer m p header)
  store_footer-IsBytes header h = store32-IsBytes _ (p + 4) header (store32-IsBytes m p ftr_magic h)

  pub SameOutside-store_header :
      (lo hi : ℕ) (m0 : Mem) (is_hole size : ℕ)
      → lo ≤ p
      → p + 12 ≤ hi
      → SameOutside lo hi m0 m
      → SameOutside lo hi m0 (store_header m p is_hole size)
  SameOutside-store_header lo hi m0 is_hole size h k same =
      SameOutside-store32 lo hi m0 _ (p + 8) size (omega arith) (omega arith) (
        SameOutside-store32 lo hi m0 _ (p + 4) is_hole (omega arith) (omega arith)
          (SameOutside-store32 lo hi m0 m p hdr_magic h (omega arith) same))

  pub SameOutside-store_footer :
      (lo hi : ℕ) (m0 : Mem) (header : ℕ)
      → lo ≤ p
      → p + 8 ≤ hi
      → SameOutside lo hi m0 m
      → SameOutside lo hi m0 (store_footer m p header)
  SameOutside-store_footer lo hi m0 header h k same =
      SameOutside-store32 lo hi m0 _ (p + 4) header (omega arith) (omega arith)
        (SameOutside-store32 lo hi m0 m p ftr_magic h (omega arith) same)

-- Headers and footers outside a region that changes stay.
module _ (lo hi : ℕ) (m m' : Mem) (same : SameOutside lo hi m m') where
  pub HeaderAt-SameOutside :
      {p is_hole size : ℕ}
      → HeaderAt m p is_hole size
      → (p + 12 ≤ lo) ⊎ (hi ≤ p)
      → HeaderAt m' p is_hole size
  HeaderAt-SameOutside {p} h out = record {
    magic = load32-SameOutside lo hi m m' p same (omega arith) ∙ h.magic;
    hole = load32-SameOutside lo hi m m' (p + 4) same (omega arith) ∙ h.hole;
    size_field = load32-SameOutside lo hi m m' (p + 8) same (omega arith) ∙ h.size_field;
  }

  pub FooterAt-SameOutside :
      {p header : ℕ} → FooterAt m p header → (p + 8 ≤ lo) ⊎ (hi ≤ p) → FooterAt m' p header
  FooterAt-SameOutside {p} h out = record {
    magic = load32-SameOutside lo hi m m' p same (omega arith) ∙ h.magic;
    names = load32-SameOutside lo hi m m' (p + 4) same (omega arith) ∙ h.names;
  }

  pub cells-SameOutside :
      (arr i n : ℕ)
      → (slot arr (i + n) ≤ lo) ⊎ (hi ≤ slot arr i)
      → cells m' arr i n ≡ cells m arr i n
  cells-SameOutside arr i n out =
      cells_ext m m' arr i n λ k p q. load32-SameOutside lo hi m m' (slot arr k) same (omega arith)
