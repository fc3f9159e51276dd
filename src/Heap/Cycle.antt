-- ===== src/Heap/Cycle.antt =====
-- alloc, then the caller's writes into the block, then free.
use james_m.Base.{ℕ, ◌+◌, ◌<◌, ◌≡◌, true, List, ◌∷◌, ◌++◌, arith, subst, sym, ltb}
use james_m.Memory.{Mem}
use james_m.Memory.Words.{IsBytes}
use james_m.Memory.Regions.{SameOutside}
use james_m.Kernel.{Kernel, VmHeap}
use james_m.Heap.Segments.{Seg, block, hole}
use james_m.Heap.Invariant.{IsHeap}
use james_m.Heap.Replace.{resized}
use james_m.Heap.Serve.{Served}
use james_m.Heap.Fill.{IsHeap-filled}
use james_m.Heap.Release.{release}
use james_m.Heap.Recycle.{Released, free-Released}

-- Where a request of `size` bytes has been served at `p` by a hole that was given away whole, with another
-- block behind it, and there is a place in the index: whatever the caller has written to the bytes that it
-- asked for, free of `p` returns, and the invariant holds. All the bytes of the hole are a hole again, joined
-- with a hole before it if there is one; the other pieces are as they were.
pub free-served :
    (k : Kernel) (h : VmHeap) (ss : List Seg) (size p : ℕ) (k' : Kernel)
    (s : Served k h ss size p k') (b : ℕ) (rest : List Seg) (m' : Mem)
    → s.n < size + 40
    → s.after ≡ block b ∷ rest
    → s.entries < h.h_index.sa_maxsize
    → IsBytes m'
    → SameOutside p (p + size) k'.mem m'
    → (ss ≡ s.before ++ (hole s.n ∷ block b ∷ rest))
      × Released
          (record k' { mem = m' })
          (resized h s.entries)
          p
          (release s.before s.n ++ (block b ∷ rest))
free-served k h ss size p k' s b rest m' whole behind space bytes same =
    let small : ltb s.n (size + 40) ≡ true = ground (arith, whole) in
    let row : IsHeap k' (resized h s.entries) (s.before ++ (block s.n ∷ block b ∷ rest)) =
      rw (sym behind) (rw small at s.is_heap) in
    let written =
      IsHeap-filled k' (resized h s.entries) s.before (block b ∷ rest) s.n size m' row s.fit bytes
        (subst (λ q. SameOutside q (q + size) k'.mem m') s.address same) in
    (
      rw (sym behind) s.split,
      subst
          (λ q.
            Released (record k' { mem = m' }) (resized h s.entries) q
              (release s.before s.n ++ (block b ∷ rest)))
          (sym s.address)
          (free-Released (record k' { mem = m' }) (resized h s.entries) s.n b rest space s.before
            written),
    )
