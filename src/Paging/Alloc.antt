-- ===== src/Paging/Alloc.antt =====
-- alloc_frame and free_frame: which frames are in use afterwards, and what the page holds.
use james_m.Base.{
  ℕ, ◌+◌, ◌*◌, ◌/◌, ◌%◌, ◌≤◌, ◌<◌, ◌≡◌, ◌≢◌, ◌⊎◌, inl, inr, arith, ◌==◌, if◌then◌else◌, ok, panic,
  some, none, u32, false, ap, ◌∙◌,
}
use james_m.Bits.{bit}
use james_m.Memory.{load32}
use james_m.Memory.Words.{IsBytes, load32-store32, load32-store32_ne}
use james_m.Kernel.{Kernel}
use james_m.Paging.{
  VmPage, load_page, store_page, word_page, page_word, frame_word, set_frame, clear_frame,
  first_frame, alloc_frame, free_frame, flag,
}
use james_m.Paging.Page.{IsPage, page_word-lt, word_page-page_word, word_page-IsPage}
use james_m.Paging.Frames.{used, used-set_frame, used-clear_frame}
use james_m.Paging.Search.{FirstZero, FirstZero-unique, found, searched, first_frame_lem}

-- The page at `p` is no part of the bitset.
abbrev pub Apart : Kernel → ℕ → Type 0
Apart k p = (p + 4 ≤ k.frames) ⊎ (k.frames + 4 * (k.nframes / 32) ≤ p)

module _ (k : Kernel) (p : ℕ) (apart : Apart k p) where
  used-store_page :
      (page : VmPage) (g : ℕ) → g < searched k → used (store_page k p page) g ≡ used k g
  unfolding used
  used-store_page page g h =
      ap (λ w. bit w (g % 32))
        (load32-store32_ne k.mem p (frame_word k (g / 32)) (page_word page) (omega arith))

load_page-store_page :
    (k : Kernel) (p : ℕ) (page : VmPage) → IsPage page → load_page (store_page k p page) p ≡ page
load_page-store_page k p page h =
    ap word_page (load32-store32 k.mem p (page_word page) (page_word-lt page))
    ∙ word_page-page_word page h

-- The bitset's writes leave the page alone.
load_page-set_frame :
    (k : Kernel) (p f : ℕ)
    → Apart k p
    → f < searched k
    → load_page (set_frame k (f * 4096)) p ≡ load_page k p
unfolding set_frame
load_page-set_frame k p f apart h =
    let e : f * 4096 / 4096 ≡ f = omega arith in
    rw e (ap word_page (load32-store32_ne k.mem (frame_word k (f / 32)) p _ (omega arith)))

load_page-clear_frame :
    (k : Kernel) (p a : ℕ)
    → Apart k p
    → a / 4096 < searched k
    → load_page (clear_frame k a) p ≡ load_page k p
unfolding clear_frame
load_page-clear_frame k p a apart h =
    ap word_page (load32-store32_ne k.mem (frame_word k (a / 4096 / 32)) p _ (omega arith))

-- clear_frame reads nothing of an address but its page.
clear_frame-page : (k : Kernel) (a : ℕ) → clear_frame k a ≡ clear_frame k (a / 4096 * 4096)
unfolding clear_frame
clear_frame-page k a = let e : a / 4096 * 4096 / 4096 ≡ a / 4096 = omega arith in rw e

first_frame-found :
    (k : Kernel) (n : ℕ) → FirstZero (used k) 0 (searched k) (some n) → first_frame k ≡ n
first_frame-found k n h = elim (first_frame_lem k) [
  | inl f ↦ ground (arith, FirstZero-unique h f)
  | inr (e, f) ↦ ground (arith, FirstZero-unique h f)
]

first_frame-full :
    (k : Kernel) → FirstZero (used k) 0 (searched k) none → first_frame k ≡ 0xFFFFFFFF
first_frame-full k h = elim (first_frame_lem k) [
  | inl f ↦ ground (arith, FirstZero-unique f h)
  | inr (e, f) ↦ e
]

FirstZero-lt : {f : ℕ → ℕ} {lo hi n : ℕ} → FirstZero f lo hi (some n) → n < hi
FirstZero-lt (found p q z below) = q

-- The page that has been given frame `n`.
abbrev pub mapped : VmPage → (n is_kernel is_writeable : ℕ) → VmPage
mapped page n is_kernel is_writeable = record page {
  p_present = 1;
  p_frame = n;
  p_rw = flag is_writeable;
  p_user = if is_kernel == 0 then 1 else 0;
}

mapped-IsPage :
    (page : VmPage) (n is_kernel is_writeable : ℕ)
    → IsPage page
    → n < 1048576
    → IsPage (mapped page n is_kernel is_writeable)
mapped-IsPage page n is_kernel is_writeable h lt = record {
  present = omega arith;
  rw = ground arith;
  user = ground arith;
  accessed = h.accessed;
  dirty = h.dirty;
  unused = h.unused;
  frame = lt;
}

module _ (k : Kernel) (p : ℕ) (bytes : IsBytes k.mem) (apart : Apart k p) where
  -- Given a page without a frame and a free frame, alloc_frame takes the lowest free frame `n`: it
  -- marks that frame and no other as used, and makes the page present with that frame and the two
  -- permissions asked for, its other fields unchanged.
  pub alloc_frame-first :
      (is_kernel is_writeable n : ℕ)
      → searched k ≤ 1048576
      → (load_page k p).p_frame ≡ 0
      → FirstZero (used k) 0 (searched k) (some n)
      → (k' : Kernel) × (alloc_frame k p is_kernel is_writeable ≡ ok k')
        × (load_page k' p ≡ mapped (load_page k p) n is_kernel is_writeable)
        × ((g : ℕ) → g < searched k → used k' g ≡ (if n == g then 1 else used k g))
  unfolding alloc_frame
  alloc_frame-first is_kernel is_writeable n small unmapped first = (
    store_page k1 p page,
    let e : u32 (n * 4096) ≡ n * 4096 = omega (arith, lt) in
        let some_frame : (n == 0xFFFFFFFF) ≡ false = ground (arith, lt) in
        rw (unmapped, first_frame-found k n first, some_frame, e),
    load_page-store_page k1 p page
          (mapped-IsPage _ n is_kernel is_writeable (word_page-IsPage _) (omega (arith, lt)))
        ∙ ap (λ q. mapped q n is_kernel is_writeable) same,
    λ g h.
        used-store_page k1 p (unfold set_frame in apart) page g (unfold set_frame in h)
        ∙ used-set_frame k bytes n g,
  )
    where
      lt : n < searched k
      lt = FirstZero-lt first

      k1 : Kernel
      k1 = set_frame k (n * 4096)

      same : load_page k1 p ≡ load_page k p
      same = load_page-set_frame k p n apart lt

      page : VmPage
      page = mapped (load_page k1 p) n is_kernel is_writeable

  -- Given a page without a frame and no free frame, alloc_frame panics.
  pub alloc_frame-panic :
      (is_kernel is_writeable : ℕ)
      → (load_page k p).p_frame ≡ 0
      → FirstZero (used k) 0 (searched k) none
      → alloc_frame k p is_kernel is_writeable ≡ panic
  unfolding alloc_frame
  alloc_frame-panic is_kernel is_writeable unmapped none_free =
      rw (unmapped, first_frame-full k none_free)

  -- Given a page with a frame, alloc_frame does nothing.
  pub alloc_frame-mapped :
      (is_kernel is_writeable : ℕ)
      → (load_page k p).p_frame ≢ 0
      → alloc_frame k p is_kernel is_writeable ≡ ok k
  unfolding alloc_frame
  alloc_frame-mapped is_kernel is_writeable has =
      let e : ((load_page k p).p_frame == 0) ≡ false = ground arith in rw e

  -- free_frame hands clear_frame the number of the page's frame where it wants the frame's address,
  -- so for a page whose frame `f` is not 0 it marks frame `f / 4096` as free and no other. The page
  -- no longer has a frame, and frame `f` stays as it was: it is never given back.
  pub free_frame-leaks :
      (load_page k p).p_frame ≢ 0
      → (load_page k p).p_frame < searched k
      → ((load_page (free_frame k p) p).p_frame ≡ 0)
        × ((g : ℕ)
            → g < searched k
            → used (free_frame k p) g
              ≡ (if (load_page k p).p_frame / 4096 == g then 0 else used k g))
        × (used (free_frame k p) (load_page k p).p_frame ≡ used k (load_page k p).p_frame)
  free_frame-leaks has lt = (
    rw step (ap (λ (q : VmPage). q.p_frame) (load_page-store_page k1 p page (page_ok))),
    bits,
    bits f lt ∙ (let e : (f / 4096 == f) ≡ false = ground arith in rw e),
  )
    where
      f : ℕ
      f = (load_page k p).p_frame

      k1 : Kernel
      k1 = clear_frame k f

      page : VmPage
      page = record (load_page k1 p) { p_frame = 0 }

      page_ok : IsPage page
      page_ok =
          let h = word_page-IsPage (load32 k1.mem p) in
          record {
            present = h.present;
            rw = h.rw;
            user = h.user;
            accessed = h.accessed;
            dirty = h.dirty;
            unused = h.unused;
            frame = omega arith;
          }

      step : free_frame k p ≡ store_page k1 p page
      step = unfold free_frame in (let e : (f == 0) ≡ false = ground arith in rw e)

      bits :
          (g : ℕ)
          → g < searched k
          → used (free_frame k p) g ≡ (if f / 4096 == g then 0 else used k g)
      bits g h = rw step (
          used-store_page k1 p (unfold clear_frame in apart) page g (unfold clear_frame in h)
          ∙ ap (λ k'. used k' g) (clear_frame-page k f)
          ∙ used-clear_frame k bytes (f / 4096) g)
