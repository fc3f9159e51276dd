-- ===== src/Paging/Frames.antt =====
-- The bitset of frames: set_frame, clear_frame and test_frame at a frame's own address.
use james_m.Base.{
  ℕ, ◌*◌, ◌/◌, ◌%◌, ◌^◌, ◌-◌, ◌<◌, ◌≡◌, arith, ◌==◌, if◌then◌else◌, bit_or, bit_and, ◌↔◌,
}
use james_m.Bits.{bit, bit-bit_or, bit-bit_and_not, bit_or-lt, bit_and-le, bit_and_one_bit_iff}
use james_m.Memory.{load32, store32}
use james_m.Memory.Words.{IsBytes, load32-lt, load32-store32, load32-store32_ne}
use james_m.Kernel.{Kernel}
use james_m.Paging.{frame_word, set_frame, clear_frame, test_frame}

-- 1 if the bitset says that frame `n` is in use, 0 if it is free.
unfoldable pub used : Kernel → ℕ → ℕ
used k n = bit (load32 k.mem (frame_word k (n / 32))) (n % 32)

module _ (k : Kernel) (bytes : IsBytes k.mem) where
  word_lt : (i : ℕ) → load32 k.mem (frame_word k i) < 2 ^ 32
  word_lt i = load32-lt k.mem _ bytes

  load32-update :
      (i j v : ℕ)
      → v < 4294967296
      → load32 (store32 k.mem (frame_word k i) v) (frame_word k j)
        ≡ (if i == j then v else load32 k.mem (frame_word k j))
  load32-update i j v h = ground (
    arith,
    load32-store32 k.mem (frame_word k i) v h,
    load32-store32_ne k.mem (frame_word k i) (frame_word k j) v,
  )

  -- set_frame at the address of frame `f` marks `f` as used and changes no other frame's bit.
  pub used-set_frame :
      (f g : ℕ) → used (set_frame k (f * 4096)) g ≡ (if f == g then 1 else used k g)
  unfolding used set_frame
  used-set_frame f g =
      let e : f * 4096 / 4096 ≡ f = omega arith in
      let w : ℕ = load32 k.mem (frame_word k (f / 32)) in
      rw e (
        ground (
          arith,
          load32-update (f / 32) (g / 32) (bit_or w (2 ^ (f % 32))),
          bit_or-lt 32 (f % 32) w (omega arith) (word_lt (f / 32)),
          bit-bit_or (f % 32) (g % 32) w,
        ))

  -- clear_frame at the address of frame `f` marks `f` as free and changes no other frame's bit.
  pub used-clear_frame :
      (f g : ℕ) → used (clear_frame k (f * 4096)) g ≡ (if f == g then 0 else used k g)
  unfolding used clear_frame
  used-clear_frame f g =
      let e : f * 4096 / 4096 ≡ f = omega arith in
      let w : ℕ = load32 k.mem (frame_word k (f / 32)) in
      let mask : ℕ = 2 ^ 32 - 1 - 2 ^ (f % 32) in
      rw e (
        ground (
          arith,
          load32-update (f / 32) (g / 32) (bit_and w mask),
          bit_and-le w mask,
          word_lt (f / 32),
          bit-bit_and_not 32 (f % 32) (g % 32) w (omega arith) (omega arith),
        ))

  -- test_frame is not 0 exactly when the frame is used.
  pub test_frame-used : (f : ℕ) → (test_frame k (f * 4096) ≡ 0) ↔ (used k f ≡ 0)
  unfolding used test_frame
  test_frame-used f =
      let e : f * 4096 / 4096 ≡ f = omega arith in
      let w : ℕ = load32 k.mem (frame_word k (f / 32)) in rw e (bit_and_one_bit_iff (f % 32) w)
