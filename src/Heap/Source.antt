-- ===== src/Heap/Source.antt =====
-- The heap as a source of memory for the clients of kmalloc.
use james_m.Base.{
  ℕ, suc, ◌+◌, ◌-◌, ◌≤◌, ◌≡◌, inl, refl, ap, sym, subst, ◌∙◌, List, [], ◌∷◌, ◌++◌, ok, arith, ltb,
  false,
}
use james_m.Memory.{Mem, bzero}
use james_m.Memory.Regions.{SameBelow, SameOutside}
use james_m.Memory.Blocks.{memset_lem, bzero-IsBytes}
use james_m.Kernel.{Kernel, VmHeap}
use james_m.Kmalloc.{_kmalloc, kmalloc, kmalloc0, from_heap, zeroed}
use james_m.Kmalloc.Supply.{Supply}
use james_m.Heap.Segments.{Seg, block, hole, total}
use james_m.Heap.Holes.{HoleIn}
use james_m.Heap.Invariant.{IsHeap}
use james_m.Heap.Replace.{resized}
use james_m.Heap.Taken.{taken}
use james_m.Heap.Serve.{Served, alloc-Served}
use james_m.Heap.Disjoint.{taken-FirstBlock}
use james_m.Heap.Fill.{IsHeap-filled}
use james_m.Heap.Alloc.{alloc}

-- Enough for the requests, each with its overhead and a remainder that can be split off.
abbrev pub need : List ℕ → ℕ
need [] = 0
need (n ∷ ns) = n + 40 + need ns

append_assoc : (xs ys zs : List Seg) → (xs ++ ys) ++ zs ≡ xs ++ (ys ++ zs)
append_assoc [] ys zs = refl
append_assoc (x ∷ xs) ys zs = ap (λ ws. x ∷ ws) (append_assoc xs ys zs)

-- A hole of `a` bytes among pieces of which a hole of `n` bytes is replaced by `ms`: it was that one, or it
-- is still there.
data Survives (ss : List Seg) (a n : ℕ) : Type 0 where
  replaced : a ≡ n → Survives ss a n
  kept : (before after : List Seg) → ss ≡ before ++ (hole a ∷ after) → Survives ss a n

Survives-later : {ss : List Seg} {a n : ℕ} (s : Seg) → Survives ss a n → Survives (s ∷ ss) a n
Survives-later s (replaced e) = replaced e
Survives-later s (kept before after e) = kept (s ∷ before) after (ap (λ zs. s ∷ zs) e)

survives :
    (ms xs ys us vs : List Seg) (a n : ℕ)
    → xs ++ (hole a ∷ ys) ≡ us ++ (hole n ∷ vs)
    → Survives (us ++ (ms ++ vs)) a n
survives ms [] ys [] vs a n e = replaced cc
survives ms [] ys (u ∷ us) vs a n e =
    let same : u ≡ hole a = cc in kept [] (us ++ (ms ++ vs)) (rw same)
survives ms (x ∷ xs) ys [] vs a n e =
    let rest : vs ≡ xs ++ (hole a ∷ ys) = cc in
    kept (ms ++ xs) ys (ap (λ zs. ms ++ zs) rest ∙ sym (append_assoc ms xs (hole a ∷ ys)))
survives ms (x ∷ xs) ys (u ∷ us) vs a n e =
    let rest : xs ++ (hole a ∷ ys) ≡ us ++ (hole n ∷ vs) = cc in
    Survives-later u (survives ms xs ys us vs a n rest)

-- A heap above the limit with a hole that is enough for all the requests.
pub record IsServing (limit : ℕ) (reqs : List ℕ) (k : Kernel) : Type 0 where
  pub h : VmHeap
  pub ss : List Seg
  pub is_heap : IsHeap k h ss
  pub x : ℕ
  pub f : HoleIn h.h_addr_start x ss
  pub room : need reqs ≤ f.size
  pub above : limit ≤ h.h_index.sa_array

-- After a request the hole, or what is left of it, is enough for the others.
HoleIn-left :
    (p len need_rest n : ℕ) (us vs ss : List Seg) (x : ℕ) (f : HoleIn p x ss)
    → ss ≡ us ++ (hole n ∷ vs)
    → len + 40 + need_rest ≤ f.size
    → (x' : ℕ) × (f' : HoleIn p x' (us ++ (taken len n ++ vs))) × (need_rest ≤ f'.size)
HoleIn-left p len need_rest n us vs ss x f split room =
    go (survives (taken len n) f.before f.after us vs f.size n (sym f.splits ∙ split))
  where
    go :
        Survives (us ++ (taken len n ++ vs)) f.size n
        → (x' : ℕ) × (f' : HoleIn p x' (us ++ (taken len n ++ vs))) × (need_rest ≤ f'.size)
    go (kept before after e) = (
      p + total before,
      record { before = before; size = f.size; after = after; splits = e; place = refl },
      omega (arith, room),
    )
    go (replaced e) =
        let large : ltb n (len + 40) ≡ false = ground (arith, e, room) in
        (
          p + total (us ++ (block (len + 20) ∷ [])),
          record {
            before = us ++ (block (len + 20) ∷ []);
            size = n - len - 20;
            after = vs;
            splits =
                rw large (sym (append_assoc us (block (len + 20) ∷ []) (hole (n - len - 20) ∷ vs)));
            place = refl;
          },
          omega (arith, e, room),
        )

module _ (fuel limit : ℕ) where
  -- What alloc gives for the first of the requests.
  module _ (len : ℕ) (rest : List ℕ) (k : Kernel) (r : IsServing limit (len ∷ rest) k) where
    abbrev Answer : Type 0
    Answer =
        (p : ℕ) × (k' : Kernel) × (alloc (suc fuel) len 0 k ≡ ok (p, k'))
        × Served k r.h r.ss len p k'

    answer : Answer
    answer = alloc-Served k r.h len r.ss r.is_heap fuel r.x r.f (omega (arith, r.room))

    module _ (p : ℕ) (k' : Kernel) (s : Served k r.h r.ss len p k') where
      abbrev pieces : List Seg
      pieces = s.before ++ (taken len s.n ++ s.after)

      serving : (k2 : Kernel) → IsHeap k2 (resized r.h s.entries) pieces → IsServing limit rest k2
      serving k2 heap =
          let (x', f', left) =
            HoleIn-left r.h.h_addr_start len (need rest) s.n s.before s.after r.ss r.x r.f s.split
              r.room in
          record {
            h = resized r.h s.entries;
            ss = pieces;
            is_heap = heap;
            x = x';
            f = f';
            room = left;
            above = r.above;
          }

      serving-SameBelow : SameBelow limit k.mem k'.mem
      serving-SameBelow a below =
          s.elsewhere a (inl (omega (arith, below, r.above)))
            (inl (omega (arith, below, r.above, r.is_heap.index_below)))

      low : limit ≤ p
      low = omega (arith, s.address, r.above, r.is_heap.index_below)

      filled : Mem
      filled = bzero k'.mem p len

      filled-SameOutside : SameOutside p (p + len) k'.mem filled
      unfolding filled bzero
      filled-SameOutside a out = ground (arith, memset_lem k'.mem p 0 len a, out)

      filled-IsHeap : IsHeap (record k' { mem = filled }) (resized r.h s.entries) pieces
      filled-IsHeap =
          let b = taken-FirstBlock len s.n s.after s.fit in
          subst (λ zs. IsHeap (record k' { mem = filled }) (resized r.h s.entries) (s.before ++ zs))
            (sym b.starts)
            (IsHeap-filled k' (resized r.h s.entries) s.before b.others b.c len filled
              (subst (λ zs. IsHeap k' (resized r.h s.entries) (s.before ++ zs)) b.starts s.is_heap)
              b.enough (unfold filled in bzero-IsBytes k'.mem p len s.is_heap.bytes)
              (subst (λ q. SameOutside q (q + len) k'.mem filled) s.address filled-SameOutside))

      filled-SameBelow : SameBelow limit k.mem filled
      filled-SameBelow a below =
          filled-SameOutside a (inl (omega (arith, below, low))) ∙ serving-SameBelow a below

  -- A heap with the invariant serves what its holes have room for.
  pub heap-Supply : Supply (alloc (suc fuel)) limit (IsServing limit)
  unfolding kmalloc kmalloc0 _kmalloc from_heap zeroed filled
  heap-Supply = record {
    plain = λ len rest k r.
        let (p, k', returns, s) = answer len rest k r in
        record {
          at = p;
          phys = 0;
          k' = k';
          returns = rw (r.is_heap.heap, returns);
          nonnull = omega (arith, s.address);
          next = serving len rest k r p k' s k' s.is_heap;
          same = serving-SameBelow len rest k r p k' s;
        };
    cleared = λ len rest k r.
        let (p, k', returns, s) = answer len rest k r in
        record {
          at = p;
          phys = 0;
          k' = record k' { mem = filled len rest k r p k' s };
          returns = rw (r.is_heap.heap, returns);
          nonnull = omega (arith, s.address);
          next =
              serving len rest k r p k' s (record k' { mem = filled len rest k r p k' s })
                (filled-IsHeap len rest k r p k' s);
          same = filled-SameBelow len rest k r p k' s;
        };
  }
