-- ===== src/Kmalloc/Supply.antt =====
-- What the clients of kmalloc rely on: an interface, and the placement allocator behind it.
use james_m.Base.{ℕ, ◌+◌, ◌≤◌, ◌<◌, ◌≡◌, List, [], ◌∷◌, none, Run, ok, arith}
use james_m.Memory.{bzero}
use james_m.Memory.Regions.{SameBelow}
use james_m.Memory.Blocks.{memset_lem}
use james_m.Kernel.{Kernel}
use james_m.Kmalloc.{Alloc, kmalloc, kmalloc0, m_zero}
use james_m.Kmalloc.Placement.{kmalloc0-placed, kmalloc-placed, after_placing}

-- A request has got a block; below `limit` the memory is the same, and what is asked for next can be served.
pub record Gets (r : Run (ℕ × ℕ × Kernel)) (limit : ℕ) (k : Kernel) (Next : Kernel → Type 0)
    : Type 0 where
  pub at : ℕ
  pub phys : ℕ
  pub k' : Kernel
  pub returns : r ≡ ok (at, phys, k')
  pub nonnull : 0 < at
  pub next : Next k'
  pub same : SameBelow limit k.mem k'.mem

-- A source of memory: `Has reqs` holds in a state in which the requests `reqs` can be served one by one.
pub record Supply (alloc : Alloc) (limit : ℕ) (Has : List ℕ → Kernel → Type 0) : Type 0 where
  pub plain :
      (len : ℕ) (rest : List ℕ) (k : Kernel)
      → Has (len ∷ rest) k
      → Gets (kmalloc alloc len k) limit k (Has rest)
  pub cleared :
      (len : ℕ) (rest : List ℕ) (k : Kernel)
      → Has (len ∷ rest) k
      → Gets (kmalloc0 alloc len k) limit k (Has rest)

abbrev pub sum : List ℕ → ℕ
sum [] = 0
sum (n ∷ ns) = n + sum ns

-- No heap yet, and the placement address is not below the limit and leaves room for the requests.
pub record IsPlacing (limit : ℕ) (reqs : List ℕ) (k : Kernel) : Type 0 where
  pub no_heap : k.kernel_heap ≡ none
  pub behind : limit ≤ k.placement_address
  pub fits : k.placement_address + sum reqs < 4294963200

module _ (alloc : Alloc) (limit : ℕ) (pos : 0 < limit) where
  placed : (flags len : ℕ) → Kernel → Kernel
  placed flags len k = after_placing len flags k.placement_address k

  placed-IsPlacing :
      (flags len : ℕ) (rest : List ℕ) (k : Kernel)
      → IsPlacing limit (len ∷ rest) k
      → IsPlacing limit rest (placed flags len k)
  unfolding placed
  placed-IsPlacing flags len rest k r = record {
    no_heap = r.no_heap;
    behind = omega (arith, r.behind);
    fits = omega (arith, r.fits);
  }

  placed-SameBelow :
      (flags len : ℕ) (k : Kernel)
      → limit ≤ k.placement_address
      → SameBelow limit k.mem (placed flags len k).mem
  unfolding placed bzero
  placed-SameBelow flags len k behind a below =
      ground (arith, memset_lem k.mem k.placement_address 0 len a, behind)

  -- Before the heap is there, the placement allocator serves what has room.
  pub placement-Supply : Supply alloc limit (IsPlacing limit)
  unfolding placed
  placement-Supply = record {
    plain = λ len rest k r. record {
      at = k.placement_address;
      phys = k.placement_address;
      k' = placed 0 len k;
      returns =
          kmalloc-placed alloc len k r.no_heap (omega (arith, r.fits)) (omega (arith, r.fits));
      nonnull = omega (arith, r.behind, pos);
      next = placed-IsPlacing 0 len rest k r;
      same = placed-SameBelow 0 len k r.behind;
    };
    cleared = λ len rest k r. record {
      at = k.placement_address;
      phys = k.placement_address;
      k' = placed m_zero len k;
      returns =
          kmalloc0-placed alloc len k r.no_heap (omega (arith, r.fits)) (omega (arith, r.fits));
      nonnull = omega (arith, r.behind, pos);
      next = placed-IsPlacing m_zero len rest k r;
      same = placed-SameBelow m_zero len k r.behind;
    };
  }
