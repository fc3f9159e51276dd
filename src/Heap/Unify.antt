-- ===== src/Heap/Unify.antt =====
-- The steps of free on a block that is not the last piece of the heap.
use james_m.Base.{
  ℕ, ◌+◌, ◌-◌, ◌≤◌, ◌<◌, ◌≡◌, ◌≢◌, ◌⊎◌, inl, inr, refl, ◌∙◌, some, ok, true, false, arith, add32,
  sub32, ◌==◌, if◌then◌else◌, Bool-cases,
}
use james_m.Memory.{Mem, store32}
use james_m.Memory.Words.{IsBytes, store32-IsBytes, load32-store32, load32-store32_ne}
use james_m.Memory.Regions.{SameOutside, SameOutside-store32}
use james_m.Kernel.{Kernel, VmHeap}
use james_m.Heap.{hh_is_hole, hf_magic, hf_header, ftr_magic, insert_index}
use james_m.Heap.Layout.{
  the_heap-some, HeaderAt, FooterAt, HeaderAt-SameOutside, FooterAt-SameOutside,
}
use james_m.Heap.Free.{Freed, unify_left, unify_right, trim, free_block, free}

-- A write of a word elsewhere leaves a header, and a footer, as they are.
pub HeaderAt-store32 :
    (m : Mem) (p v : ℕ) {q is_hole size : ℕ}
    → HeaderAt m q is_hole size
    → (q + 12 ≤ p) ⊎ (p + 4 ≤ q)
    → HeaderAt (store32 m p v) q is_hole size
HeaderAt-store32 m p v at out =
    HeaderAt-SameOutside p (p + 4) m (store32 m p v)
      (SameOutside-store32 p (p + 4) m m p v (omega arith) (omega arith) (λ a away. refl)) at out

pub FooterAt-store32 :
    (m : Mem) (p v : ℕ) {q header : ℕ}
    → FooterAt m q header
    → (q + 8 ≤ p) ⊎ (p + 4 ≤ q)
    → FooterAt (store32 m p v) q header
FooterAt-store32 m p v at out =
    FooterAt-SameOutside p (p + 4) m (store32 m p v)
      (SameOutside-store32 p (p + 4) m m p v (omega arith) (omega arith) (λ a away. refl)) at out

-- The block at `pos` is marked as a hole.
pub HeaderAt-marked :
    (m : Mem) {pos size : ℕ} → HeaderAt m pos 0 size → HeaderAt (store32 m (pos + 4) 1) pos 1 size
HeaderAt-marked m {pos} at = record {
  magic = load32-store32_ne m (pos + 4) pos 1 (omega arith) ∙ at.magic;
  hole = load32-store32 m (pos + 4) 1 (omega arith);
  size_field = load32-store32_ne m (pos + 4) (pos + 8) 1 (omega arith) ∙ at.size_field;
}

-- In the heap `h` a block of `n` bytes stands at `pos`, with its footer, and not at the end.
pub record IsBetween (k : Kernel) (h : VmHeap) (pos n : ℕ) : Type 0 where
  pub heap : k.kernel_heap ≡ some h
  pub header : HeaderAt k.mem pos 0 n
  pub footer : FooterAt k.mem (pos + n - 8) pos
  pub room : 20 ≤ n
  pub low : 8 ≤ pos
  pub below : pos + n < h.h_addr_end
  pub limit : h.h_addr_end < 4294967296

module _ (k : Kernel) (h : VmHeap) (pos n : ℕ) (r : IsBetween k h pos n) where
  abbrev pub marked : Kernel
  marked = record k { mem = store32 k.mem (pos + 4) 1 }

  -- Nothing joins on the left if no footer stands there, or the footer of a block.
  pub unify_left-alone :
      (hf_magic k.mem (pos - 8) ≢ ftr_magic)
        ⊎ ((hh_is_hole k.mem (hf_header k.mem (pos - 8)) ≡ 0)
            × ((hf_header k.mem (pos - 8) + 8 ≤ pos + 4)
                ⊎ (pos + 8 ≤ hf_header k.mem (pos - 8) + 4)))
      → unify_left pos (pos + n - 8) marked
        ≡ record { header = pos; footer = pos + n - 8; do_add = true; state = marked }
  unfolding unify_left
  unify_left-alone (inl no_footer) =
      let place : sub32 pos 8 ≡ pos - 8 = omega (arith, r.low, r.below, r.limit) in
      let same = load32-store32_ne k.mem (pos + 4) (pos - 8) 1 (omega arith) in
      let test : (hf_magic k.mem (pos - 8) == ftr_magic) ≡ false = ground (arith, no_footer) in
      rw (place, same, test)
  unify_left-alone (inr (used, apart)) =
      let place : sub32 pos 8 ≡ pos - 8 = omega (arith, r.low, r.below, r.limit) in
      let same = load32-store32_ne k.mem (pos + 4) (pos - 8) 1 (omega arith) in
      let names = load32-store32_ne k.mem (pos + 4) (pos - 8 + 4) 1 (omega arith) in
      let kept =
        load32-store32_ne k.mem (pos + 4) (hf_header k.mem (pos - 8) + 4) 1
          (omega (arith, apart)) in
      elim (Bool-cases (hf_magic k.mem (pos - 8) == ftr_magic)) [
        | inl there ↦ rw (place, same, names, kept, used, there)
        | inr absent ↦ rw (place, same, names, kept, used, absent)
      ]

  module _ (s : Freed) (footer : s.footer ≡ pos + n - 8) (heap : s.state.kernel_heap ≡ some h) where
    behind : add32 s.footer 8 ≡ pos + n
    behind = omega (arith, footer, r.room, r.below, r.limit)

    unify_right-block :
        {b : ℕ} → HeaderAt s.state.mem (pos + n) 0 b → unify_right (pos + n) s ≡ ok s
    unfolding unify_right
    unify_right-block next = rw (next.magic, next.hole)

    trim-inside : trim (pos + n) s ≡ ok s
    unfolding trim
    trim-inside =
        let before_end : (pos + n == h.h_addr_end) ≡ false = ground (arith, r.below) in
        rw (the_heap-some s.state heap, behind, before_end)

    -- The rest of free, once the block has joined a hole on the left or not.
    pub free-joined :
        {b : ℕ}
        → unify_left pos (pos + n - 8) marked ≡ s
        → HeaderAt s.state.mem (pos + n) 0 b
        → free (pos + 12) k ≡ (if s.do_add then insert_index s.state s.header else ok s.state)
    unfolding free free_block
    free-joined joined next =
        let back : sub32 (pos + 12) 12 ≡ pos = omega (arith, r.below, r.limit) in
        let given : ((pos + 12) == 0) ≡ false = ground arith in
        let place : sub32 (add32 pos n) 8 ≡ pos + n - 8 = omega (arith, r.room, r.below, r.limit) in
        rw (
          given,
          r.heap,
          back,
          r.header.size_field,
          place,
          r.header.magic,
          r.footer.magic,
          joined,
          behind,
          unify_right-block next,
          trim-inside,
        )

  -- A hole of `a` bytes at `left` ends where the block begins.
  module _ (left a : ℕ) (there : HeaderAt k.mem left 1 a) (foot : FooterAt k.mem (pos - 8) left)
      (ends : left + a ≡ pos) (wide : 20 ≤ a) where
    abbrev pub named : Mem
    named = store32 marked.mem (pos + n - 8 + 4) left

    abbrev pub widened : Mem
    widened = store32 named (left + 8) (a + n)

    pub unify_left-hole : unify_left pos (pos + n - 8) marked ≡ record {
      header = left;
      footer = pos + n - 8;
      do_add = false;
      state = record k { mem = widened };
    }
    unfolding unify_left
    unify_left-hole =
        let place : sub32 pos 8 ≡ pos - 8 = omega (arith, r.low, r.below, r.limit) in
        let foot' = FooterAt-store32 k.mem (pos + 4) 1 foot (omega arith) in
        let there' = HeaderAt-store32 k.mem (pos + 4) 1 there (omega (arith, wide, ends)) in
        let kept =
          HeaderAt-store32 marked.mem (pos + n - 8 + 4) left there'
            (omega (arith, wide, ends, r.room)) in
        let mine = HeaderAt-marked k.mem r.header in
        let sum : add32 a n ≡ a + n = omega (arith, ends, r.below, r.limit) in
        rw (place, foot'.magic, foot'.names, there'.hole, mine.size_field, kept.size_field, sum)

    pub widened-HeaderAt : HeaderAt widened left 1 (a + n)
    widened-HeaderAt =
        let there' = HeaderAt-store32 k.mem (pos + 4) 1 there (omega (arith, wide, ends)) in
        let kept =
          HeaderAt-store32 marked.mem (pos + n - 8 + 4) left there'
            (omega (arith, wide, ends, r.room)) in
        record {
          magic = load32-store32_ne named (left + 8) left (a + n) (omega arith) ∙ kept.magic;
          hole = load32-store32_ne named (left + 8) (left + 4) (a + n) (omega arith) ∙ kept.hole;
          size_field =
              load32-store32 named (left + 8) (a + n) (omega (arith, ends, r.below, r.limit));
        }

    pub widened-FooterAt : FooterAt widened (pos + n - 8) left
    widened-FooterAt =
        let mine = FooterAt-store32 k.mem (pos + 4) 1 r.footer (omega (arith, r.room)) in
        FooterAt-store32 named (left + 8) (a + n)
          (record {
            magic =
                load32-store32_ne marked.mem (pos + n - 8 + 4) (pos + n - 8) left (omega arith)
                ∙ mine.magic;
            names =
                load32-store32 marked.mem (pos + n - 8 + 4) left
                  (omega (arith, ends, r.below, r.limit));
          })
          (omega (arith, wide, ends, r.room))

    pub widened-next : {b : ℕ} → HeaderAt k.mem (pos + n) 0 b → HeaderAt widened (pos + n) 0 b
    widened-next next =
        HeaderAt-store32 named (left + 8) (a + n)
          (HeaderAt-store32 marked.mem (pos + n - 8 + 4) left
            (HeaderAt-store32 k.mem (pos + 4) 1 next (omega (arith, r.room)))
            (omega (arith, r.room)))
          (omega (arith, wide, ends))

    pub widened-IsBytes : IsBytes k.mem → IsBytes widened
    widened-IsBytes bytes = store32-IsBytes named (left + 8) (a + n) (
        store32-IsBytes marked.mem (pos + n - 8 + 4) left (store32-IsBytes k.mem (pos + 4) 1 bytes))

    pub widened-SameOutside : SameOutside left (pos + n) k.mem widened
    widened-SameOutside =
        SameOutside-store32 left (pos + n) k.mem named (left + 8) (a + n) (omega arith)
          (omega (arith, wide, ends))
          (SameOutside-store32 left (pos + n) k.mem marked.mem (pos + n - 8 + 4) left
            (omega (arith, ends, r.room)) (omega (arith, r.room))
            (SameOutside-store32 left (pos + n) k.mem k.mem (pos + 4) 1 (omega (arith, ends))
              (omega (arith, r.room)) (λ a out. refl)))
