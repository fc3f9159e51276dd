-- ===== src/Tar/Archive.antt =====
-- The walk over an archive: one file for each header.
use mathlib.Core.List.{append-nil}
use james_m.Base.{
  ℕ, zero, suc, ◌+◌, ◌*◌, ◌/◌, ◌≤◌, ◌<◌, ◌≡◌, ◌≢◌, refl, sym, ap, ap₂, ◌∙◌, arith, List, [], ◌∷◌,
  ◌++◌, none, some, ok, ◌==◌, true, false, length, u32, add32,
}
use james_m.Memory.{Mem}
use james_m.Memory.Regions.{SameBelow}
use james_m.Kernel.{Kernel}
use james_m.Kmalloc.{Alloc}
use james_m.Kmalloc.Supply.{Supply, sum, IsPlacing, placement-Supply}
use james_m.Tar.{TarFile, size_offset, bytes, getsize, tar_file, tar_loop, tar_parse_mem}
use james_m.Tar.Size.{IsOctal, getsize-IsOctal, stride_lem}

-- Where the header behind a file of `n` bytes stands.
abbrev pub next_header : (p n : ℕ) → ℕ
next_header p n = p + (512 + (n + 511) / 512 * 512)

-- Headers for files of the sizes `ns` stand from `p` on, each with its data behind it, and a zero byte
-- ends them; all of it lies below `limit`.
abbrev pub IsArchive : Mem → (limit p : ℕ) → List ℕ → Type 0
IsArchive m limit p [] = (m p ≡ 0) × (p < limit)
IsArchive m limit p (n ∷ ns) =
    (m p ≢ 0)
    × (p + 512 ≤ limit)
    × (n < 4294966784)
    × IsOctal m (p + size_offset) 11 n
    × IsArchive m limit (next_header p n) ns

-- The files that the headers stand for.
abbrev pub files_at : Mem → (p : ℕ) → List ℕ → List TarFile
files_at m p [] = []
files_at m p (n ∷ ns) =
    record { tf_filename = bytes m p 100 ++ (0 ∷ []); tf_datasiz = n; tf_data = p + 512 }
    ∷ files_at m (next_header p n) ns

module _ (limit : ℕ) (m m' : Mem) (same : SameBelow limit m m') where
  IsOctal-SameBelow :
      (a count n : ℕ) → a + count ≤ limit → IsOctal m a count n → IsOctal m' a count n
  IsOctal-SameBelow a zero n le h = tt
  IsOctal-SameBelow a (suc count) n le h =
      (same (a + count) (omega arith) ∙ h.0, IsOctal-SameBelow a count (n / 8) (omega arith) h.1)

  pub IsArchive-SameBelow : (p : ℕ) (ns : List ℕ) → IsArchive m limit p ns → IsArchive m' limit p ns
  IsArchive-SameBelow p [] h = (same p h.1 ∙ h.0, h.1)
  IsArchive-SameBelow p (n ∷ ns) h = (
    (λ e. h.0 (sym (same p (omega (arith, h.1))) ∙ e)),
    h.1,
    h.2,
    IsOctal-SameBelow (p + size_offset) 11 n (omega (arith, h.1)) h.3,
    IsArchive-SameBelow (next_header p n) ns h.4,
  )

  bytes-SameBelow : (p count : ℕ) → p + count ≤ limit → bytes m' p count ≡ bytes m p count
  bytes-SameBelow p zero le = refl
  bytes-SameBelow p (suc count) le =
      ap₂ ◌∷◌ (same p (omega arith)) (bytes-SameBelow (p + 1) count (omega arith))

  pub files_at-SameBelow :
      (p : ℕ) (ns : List ℕ) → IsArchive m limit p ns → files_at m' p ns ≡ files_at m p ns
  files_at-SameBelow p [] h = refl
  files_at-SameBelow p (n ∷ ns) h =
      ap₂
        (λ (b : List ℕ) fs.
          record { tf_filename = b ++ (0 ∷ []); tf_datasiz = n; tf_data = p + 512 } ∷ fs)
        (bytes-SameBelow p 100 (omega (arith, h.1))) (files_at-SameBelow (next_header p n) ns h.4)

  tar_file-SameBelow :
      (p n : ℕ) (ns : List ℕ)
      → IsArchive m limit p (n ∷ ns)
      → tar_file m' p n
        ≡ record { tf_filename = bytes m p 100 ++ (0 ∷ []); tf_datasiz = n; tf_data = p + 512 }
  unfolding tar_file
  tar_file-SameBelow p n ns h =
      ap (λ (b : List ℕ). record { tf_filename = b ++ (0 ∷ []); tf_datasiz = n; tf_data = p + 512 })
        (bytes-SameBelow p 100 (omega (arith, h.1)))

limit-pos : (limit p : ℕ) (ns : List ℕ) (m : Mem) → IsArchive m limit p ns → 0 < limit
limit-pos limit p [] m h = omega (arith, h.1)
limit-pos limit p (n ∷ ns) m h = omega (arith, h.1)

append-cons {ℓ} :
    {A : Type ℓ} (xs : List A) (y : A) (ys : List A) → (xs ++ (y ∷ [])) ++ ys ≡ xs ++ (y ∷ ys)
append-cons [] y ys = refl
append-cons (x ∷ xs) y ys = ap (λ zs. x ∷ zs) (append-cons xs y ys)

-- The requests that tar_loop makes for the files, and then others.
abbrev pub node_requests : List ℕ → (others : List ℕ) → List ℕ
node_requests [] others = others
node_requests (n ∷ ns) others = 120 ∷ node_requests ns others

module _ (alloc : Alloc) (limit : ℕ) (Has : List ℕ → Kernel → Type 0)
    (supply : Supply alloc limit Has) where
  tar_loop-files_at :
      (fuel p i : ℕ) (q : List TarFile) (k : Kernel) (ns others : List ℕ)
      → Has (node_requests ns others) k
      → IsArchive k.mem limit p ns
      → length ns < fuel
      → i < 4294967296
      → (k' : Kernel) × (tar_loop alloc fuel p i q k
          ≡ ok (some (u32 (i + length ns), q ++ files_at k.mem p ns), k'))
        × Has others k'
        × SameBelow limit k.mem k'.mem
  unfolding tar_loop
  tar_loop-files_at zero p i q k ns others has h enough w = absurd (omega arith)
  tar_loop-files_at (suc fuel) p i q k [] others has h enough w = (
    k,
    let none_left : (k.mem p == 0) ≡ true = ground (arith, h) in
        let same : u32 (i + 0) ≡ i = omega arith in rw (none_left, same, append-nil q),
    has,
    λ a below. refl,
  )
  tar_loop-files_at (suc fuel) p i q k (n ∷ ns) others has h enough w =
      let g = supply.cleared 120 (node_requests ns others) k has in
      let (k', e, left, same) =
        tar_loop-files_at fuel (next_header p n) (add32 i 1) (q ++ (tar_file g.k'.mem p n ∷ []))
          g.k' ns others g.next
          (IsArchive-SameBelow limit k.mem g.k'.mem g.same (next_header p n) ns h.4) (omega arith)
          (omega arith) in
      let more : (k.mem p == 0) ≡ false = ground (arith, h) in
      let got : (g.at == 0) ≡ false = ground (arith, g.nonnull) in
      let size : getsize k.mem (p + size_offset) ≡ n =
        omega (arith, getsize-IsOctal k.mem (p + size_offset) n h.3 (omega (arith, h)), h) in
      (
        k',
        rw (more, size, stride_lem n h.2, g.returns, got, e)
            (ap₂ (λ (c : ℕ) fs. ok (some (c, fs), k')) (omega arith)
              (append-cons q (tar_file g.k'.mem p n) (files_at g.k'.mem (next_header p n) ns)
                ∙ ap₂ (λ f fs. q ++ (f ∷ fs))
                    (tar_file-SameBelow limit k.mem g.k'.mem g.same p n ns h)
                    (files_at-SameBelow limit k.mem g.k'.mem g.same (next_header p n) ns h.4))),
        left,
        λ a below. same a below ∙ g.same a below,
      )

  -- From any source of memory that keeps what lies below the limit, and that can serve the requests for the
  -- queue and the nodes: the files of an archive below the limit are found.
  pub tar_parse_mem-supplied :
      (fuel addr : ℕ) (k : Kernel) (ns others : List ℕ)
      → Has (8 ∷ node_requests ns others) k
      → IsArchive k.mem limit addr ns
      → length ns < fuel
      → (k' : Kernel) × (tar_parse_mem alloc fuel addr k
          ≡ ok (some (u32 (length ns), files_at k.mem addr ns), k'))
        × Has others k'
        × SameBelow limit k.mem k'.mem
  unfolding tar_parse_mem
  tar_parse_mem-supplied fuel addr k ns others has h enough =
      let g = supply.cleared 8 (node_requests ns others) k has in
      let (k', e, left, same) =
        tar_loop-files_at fuel addr 0 [] g.k' ns others g.next
          (IsArchive-SameBelow limit k.mem g.k'.mem g.same addr ns h) enough (omega arith) in
      let got : (g.at == 0) ≡ false = ground (arith, g.nonnull) in
      (
        k',
        rw (g.returns, got, e)
            (ap₂ (λ (c : ℕ) fs. ok (some (c, fs), k')) (omega arith)
              (files_at-SameBelow limit k.mem g.k'.mem g.same addr ns h)),
        left,
        λ a below. same a below ∙ g.same a below,
      )

-- What is needed of the placement allocator for the archive.
pub record Ready (k : Kernel) (limit room : ℕ) : Type 0 where
  pub no_heap : k.kernel_heap ≡ none
  pub behind : limit ≤ k.placement_address
  pub fits : k.placement_address + room < 4294963200

sum-node_requests : (ns : List ℕ) → sum (node_requests ns []) ≡ 120 * length ns
sum-node_requests [] = refl
sum-node_requests (n ∷ ns) = omega (arith, sum-node_requests ns)

-- With no heap yet, an archive whose headers and sizes are well formed, memory to take from behind
-- it that is enough for a node of each file, and more fuel than files: tar_parse_mem returns the number of
-- files and, in the order of the archive, for each its first 100 bytes of header as the name, ended by a
-- zero, the size that its header writes in octal, and the address behind its header.
pub tar_parse_mem-files_at :
    (alloc : Alloc) (fuel limit addr : ℕ) (k : Kernel) (ns : List ℕ)
    → Ready k limit (8 + 120 * length ns)
    → IsArchive k.mem limit addr ns
    → length ns < fuel
    → (k' : Kernel) × (tar_parse_mem alloc fuel addr k
        ≡ ok (some (u32 (length ns), files_at k.mem addr ns), k'))
tar_parse_mem-files_at alloc fuel limit addr k ns r h enough =
    let has : IsPlacing limit (8 ∷ node_requests ns []) k = record {
      no_heap = r.no_heap;
      behind = r.behind;
      fits = omega (arith, r.fits, sum-node_requests ns);
    } in
    let (k', e, left, same) =
      tar_parse_mem-supplied alloc limit (IsPlacing limit)
        (placement-Supply alloc limit (limit-pos limit addr ns k.mem h)) fuel addr k ns [] has h
        enough in
    (k', e)
