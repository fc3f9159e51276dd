-- ===== src/Heap/Join.antt =====
-- free on a block between a hole and another block: the hole takes it in.
use james_m.Base.{
  ℕ, ◌+◌, ◌-◌, ◌≤◌, ◌≡◌, inl, inr, refl, List, [], ◌∷◌, ◌++◌, ok, arith, ap, subst, false,
}
use james_m.Memory.{Mem}
use james_m.Memory.Regions.{SameOutside}
use james_m.Kernel.{Kernel, VmHeap}
use james_m.Heap.Layout.{FooterAt, cells-SameOutside}
use james_m.Heap.Segments.{Seg, IsSeg, block, hole, total, Tiled, Tiled-end, Tiled-after, count}
use james_m.Heap.Invariant.{IsHeap}
use james_m.Heap.Replace.{resized, Changed, IsHeap-replaced}
use james_m.Heap.Unify.{
  IsBetween, unify_left-hole, free-joined, widened, widened-HeaderAt, widened-FooterAt,
  widened-next, widened-IsBytes, widened-SameOutside,
}
use james_m.Heap.Free.{free}

module _ (k : Kernel) (h : VmHeap) (before after : List Seg) (a n b : ℕ)
    (r : IsHeap k h (before ++ (hole a ∷ block n ∷ block b ∷ after))) where
  abbrev left : ℕ
  left = h.h_addr_start + total before

  here : Tiled k.mem h.h_addr_end left (hole a ∷ block n ∷ block b ∷ after) h.h_addr_end
  here =
      Tiled-after k.mem h.h_addr_end h.h_addr_start before (hole a ∷ block n ∷ block b ∷ after)
        h.h_addr_end r.tiled

  below : left + a + n + b ≤ h.h_addr_end
  below =
      omega (arith, Tiled-end k.mem h.h_addr_end (left + a + n + b) after h.h_addr_end here.1.1.1)

  between : IsBetween k h (left + a) n
  between = record {
    heap = r.heap;
    header = here.1.0.header;
    footer = elim here.1.0.footer [ inl f ↦ f | inr last ↦ absurd (ground (arith, last)) ];
    room = here.1.0.room;
    low = omega (arith, r.index_below);
    below = omega (arith, below, here.1.1.0.room);
    limit = r.limit;
  }

  -- Only the last hole of the heap may lack its footer.
  foot : FooterAt k.mem (left + a - 8) left
  foot = elim here.0.footer [
    | inl f ↦ f
    | inr last ↦ absurd (omega (arith, last.1, below, here.1.0.room))
  ]

  joined : Mem
  joined = widened k h (left + a) n between left a here.0.header foot refl here.0.room

  pub wide : Kernel
  wide = record k { mem = joined }

  joined-SameOutside : SameOutside left (left + a + n) k.mem joined
  unfolding joined
  joined-SameOutside =
      widened-SameOutside k h (left + a) n between left a here.0.header foot refl here.0.room

  joined-Changed : Changed k h left (left + total (hole a ∷ block n ∷ [])) h.h_index.sa_size wide
  unfolding wide joined
  joined-Changed = record {
    heap = r.heap;
    capacity = r.capacity;
    still_bytes =
        widened-IsBytes k h (left + a) n between left a here.0.header foot refl here.0.room r.bytes;
    elsewhere = λ x out apart. joined-SameOutside x (omega (arith, apart));
  }

  joined-hole : IsSeg joined h.h_addr_end left (hole (a + n))
  unfolding joined
  joined-hole = record {
    room = omega (arith, here.0.room);
    header = widened-HeaderAt k h (left + a) n between left a here.0.header foot refl here.0.room;
    footer = inl (
        subst (λ x. FooterAt joined x left) (omega arith)
          (widened-FooterAt k h (left + a) n between left a here.0.header foot refl here.0.room));
  }

  pub joined-IsHeap :
      IsHeap wide (resized h h.h_index.sa_size) (before ++ (hole (a + n) ∷ block b ∷ after))
  unfolding wide
  joined-IsHeap =
      IsHeap-replaced k h before (hole a ∷ block n ∷ []) (hole (a + n) ∷ []) (block b ∷ after) r
        h.h_index.sa_size wide joined-Changed (joined-hole, omega arith) (omega arith)
        λ x. omega (
          arith,
          ap (count x) (
              cells-SameOutside left (left + a + n) k.mem joined joined-SameOutside
                h.h_index.sa_array 0 h.h_index.sa_size (omega (arith, r.index_below, r.capacity))),
        )

  pub released_joined : free (left + a + 12) k ≡ ok wide
  unfolding wide joined
  released_joined =
      free-joined k h (left + a) n between
        (record { header = left; footer = left + a + n - 8; do_add = false; state = wide }) refl
        r.heap (unify_left-hole k h (left + a) n between left a here.0.header foot refl here.0.room)
        (widened-next k h (left + a) n between left a here.0.header foot refl here.0.room
          here.1.1.0.header)
