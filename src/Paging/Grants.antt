-- ===== src/Paging/Grants.antt =====
-- Calls of alloc_frame one after the other, as a step relation.
use james_m.Base.{
  ℕ, ◌*◌, ◌<◌, ◌≤◌, ◌≡◌, refl, ap, ◌∙◌, sym, ◌/◌, ◌%◌, arith, List, [], ◌∷◌, some, Run, ok, ◌==◌,
  if◌then◌else◌, inl, inr, Bool-cases,
}
use james_m.Bits.{bit-le-one}
use james_m.Memory.Words.{IsBytes, store32-IsBytes}
use james_m.Kernel.{Kernel}
use james_m.Paging.{VmPage, first_frame, load_page, alloc_frame, set_frame}
use james_m.Paging.Frames.{used}
use james_m.Paging.Search.{FirstZero, found, searched, first_frame_lem}
use james_m.Paging.Alloc.{Apart, alloc_frame-first, alloc_frame-panic}

-- What a call of alloc_frame that returns does to the bitset.
record Took (k : Kernel) (p : ℕ) (k' : Kernel) : Type 0 where
  frame : ℕ
  below : frame < searched k
  was_free : used k frame ≡ 0
  on_page : (load_page k' p).p_frame ≡ frame
  marked : (g : ℕ) → g < searched k → used k' g ≡ (if frame == g then 1 else used k g)

-- The bitset stays where it is, and the memory a memory of bytes.
record Kept (k k' : Kernel) : Type 0 where
  bytes : IsBytes k'.mem
  frames : k'.frames ≡ k.frames
  nframes : k'.nframes ≡ k.nframes

abbrev Keeps : (k : Kernel) → Run Kernel → Type 0
Keeps k (ok k') = Kept k k'
Keeps k r = Unit

FirstZero-parts : {f : ℕ → ℕ} {lo hi n : ℕ} → FirstZero f lo hi (some n) → (n < hi) × (f n ≡ 0)
FirstZero-parts (found p q z below) = (q, z)

module _ (k : Kernel) (p is_kernel is_writeable : ℕ) (bytes : IsBytes k.mem) where
  alloc_frame-Keeps : Keeps k (alloc_frame k p is_kernel is_writeable)
  unfolding alloc_frame set_frame
  alloc_frame-Keeps = elim (Bool-cases ((load_page k p).p_frame == 0)) [
    | inr has ↦ rw has (record { bytes = bytes; frames = refl; nframes = refl })
    | inl unset ↦ elim (Bool-cases (first_frame k == 0xFFFFFFFF)) [
      | inl all ↦ rw (unset, all) tt
      | inr free ↦
          rw (unset, free)
            (record {
              bytes = store32-IsBytes _ _ _ (store32-IsBytes _ _ _ bytes);
              frames = refl;
              nframes = refl;
            })
    ]
  ]

  module _ (k' : Kernel) (e : alloc_frame k p is_kernel is_writeable ≡ ok k') where
    alloc_frame-Kept : Kept k k'
    alloc_frame-Kept = rw e at alloc_frame-Keeps

    alloc_frame-Took : Apart k p → searched k ≤ 1048576 → (load_page k p).p_frame ≡ 0 → Took k p k'
    alloc_frame-Took apart small unmapped = elim (first_frame_lem k) [
      | inl first ↦
          let (k1, e1, on_page, marked) =
            alloc_frame-first k p bytes apart is_kernel is_writeable (first_frame k) small unmapped
              first in
          let same : k1 ≡ k' = cc in
          let (below, zero_bit) = FirstZero-parts first in
          record {
            frame = first_frame k;
            below = below;
            was_free = zero_bit;
            on_page = ap (λ s. (load_page s p).p_frame) (sym same) ∙ ap VmPage.p_frame on_page;
            marked = λ g h. ap (λ s. used s g) (sym same) ∙ marked g h;
          }
      | inr (_, none_free) ↦
          let panics =
            alloc_frame-panic k p bytes apart is_kernel is_writeable unmapped none_free in
          absurd (cc)
    ]

-- From `k`, calls of alloc_frame on pages that have no frame yet and are no part of the bitset; the list
-- has the frame that each page has got, the last one first.
pub data Grants (k : Kernel) : List ℕ → Kernel → Type 0 where
  start : Grants k [] k
  grant :
      {fs : List ℕ} {k' : Kernel} (k'' : Kernel) (p is_kernel is_writeable : ℕ)
      → Grants k fs k'
      → Apart k' p
      → (load_page k' p).p_frame ≡ 0
      → alloc_frame k' p is_kernel is_writeable ≡ ok k''
      → Grants k ((load_page k'' p).p_frame ∷ fs) k''

abbrev pub Absent : ℕ → List ℕ → Type 0
Absent n [] = Unit
Absent n (m ∷ ms) = ¬ (n ≡ m) × Absent n ms

-- Each frame of the list was free in `k`, is used in `k'`, and is in the list once.
abbrev pub Granted : (k k' : Kernel) → List ℕ → Type 0
Granted k k' [] = Unit
Granted k k' (n ∷ ns) =
    (n < searched k) × (used k n ≡ 0) × (used k' n ≡ 1) × Absent n ns × Granted k k' ns

-- What was used in `k` stays used.
abbrev StillUsed : (k k' k'' : Kernel) → Type 0
StillUsed k k' k'' = (g : ℕ) → g < searched k → used k' g ≡ 1 → used k'' g ≡ 1

Granted-Absent :
    (k k' : Kernel) (n : ℕ) (ns : List ℕ) → Granted k k' ns → used k' n ≡ 0 → Absent n ns
Granted-Absent k k' n [] all free = tt
Granted-Absent k k' n (m ∷ ms) (_, _, taken, _, rest) free = (
  λ same. absurd (omega (arith, taken, free, ap (used k') same)),
  Granted-Absent k k' n ms rest free,
)

Granted-StillUsed :
    (k k' k'' : Kernel) (ns : List ℕ) → StillUsed k k' k'' → Granted k k' ns → Granted k k'' ns
Granted-StillUsed k k' k'' [] still all = tt
Granted-StillUsed k k' k'' (n ∷ ns) still (below, free, taken, once, rest) =
    (below, free, still n below taken, once, Granted-StillUsed k k' k'' ns still rest)

used-le_one : (k : Kernel) (n : ℕ) → used k n ≤ 1
unfolding used
used-le_one k n = bit-le-one (n % 32) _

record Granting (k k' : Kernel) (fs : List ℕ) : Type 0 where
  kept : Kept k k'
  still : StillUsed k k k'
  granted : Granted k k' fs

Granting-Took :
    (k k' k'' : Kernel) (fs : List ℕ) (p : ℕ)
    → Granting k k' fs
    → Kept k' k''
    → Took k' p k''
    → Granting k k'' ((load_page k'' p).p_frame ∷ fs)
Granting-Took k k' k'' fs p so_far kept took =
    let same : searched k' ≡ searched k = ap (λ n. n / 32 * 32) so_far.kept.nframes in
    let still : StillUsed k k' k'' =
      λ g h taken. ground (arith, took.marked g (omega (arith, h, same)), taken) in
    let below : took.frame < searched k = omega (arith, took.below, same) in
    let free : used k took.frame ≡ 0 =
      ground (arith, used-le_one k took.frame, so_far.still took.frame below, took.was_free) in
    record {
      kept = record {
        bytes = kept.bytes;
        frames = kept.frames ∙ so_far.kept.frames;
        nframes = kept.nframes ∙ so_far.kept.nframes;
      };
      still = λ g h taken. still g h (so_far.still g h taken);
      granted = rw took.on_page (
        below,
        free,
        ground (arith, took.marked took.frame took.below),
        Granted-Absent k k' took.frame fs so_far.granted took.was_free,
        Granted-StillUsed k k' k'' fs still so_far.granted,
      );
    }

Grants-Granting :
    (k : Kernel) (fs : List ℕ) (k' : Kernel)
    → IsBytes k.mem
    → searched k ≤ 1048576
    → Grants k fs k'
    → Granting k k' fs
Grants-Granting k fs k' bytes small start = record {
  kept = record { bytes = bytes; frames = refl; nframes = refl };
  still = λ g h u. u;
  granted = tt;
}
Grants-Granting k fs k' bytes small
      (grant {fs = gs} {k' = k1} k'' p is_kernel is_writeable before apart unmapped e) =
    let so_far = Grants-Granting k gs k1 bytes small before in
    let same : searched k1 ≡ searched k = ap (λ n. n / 32 * 32) so_far.kept.nframes in
    Granting-Took k k1 k'' gs p so_far
      (alloc_frame-Kept k1 p is_kernel is_writeable so_far.kept.bytes k'' e)
      (alloc_frame-Took k1 p is_kernel is_writeable so_far.kept.bytes k'' e apart
        (omega (arith, same, small)) unmapped)

-- However many pages get a frame by alloc_frame, one after the other, from a memory of bytes and at most
-- 2^20 frames, and whatever the permissions: no two of them get the same frame, each frame was free at
-- the start, and all of them are marked as used at the end.
pub Grants-Granted :
    (k : Kernel) (fs : List ℕ) (k' : Kernel)
    → IsBytes k.mem
    → searched k ≤ 1048576
    → Grants k fs k'
    → Granted k k' fs
Grants-Granted k fs k' bytes small run = (Grants-Granting k fs k' bytes small run).granted
