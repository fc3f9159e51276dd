-- ===== src/Heap/Segments.antt =====
-- The blocks and holes of a heap one behind the other, as the headers and footers in memory say.
use james_m.Base.{
  ℕ, ◌+◌, ◌-◌, ◌≤◌, ◌<◌, ◌≡◌, ◌⊎◌, inl, inr, ◌∙◌, subst, arith, List, [], ◌∷◌, ◌++◌, ◌==◌,
  if◌then◌else◌,
}
use james_m.Memory.{Mem, load32}
use james_m.Memory.Regions.{load32_ext}
use james_m.Heap.Layout.{HeaderAt, FooterAt}

-- A piece of the heap with the bytes that it takes, its header and footer included.
pub data Seg : Type 0 where
  block hole : ℕ → Seg

abbrev pub extent : Seg → ℕ
extent (block n) = n
extent (hole n) = n

-- What `hh_is_hole` says.
abbrev pub kind : Seg → ℕ
kind (block n) = 0
kind (hole n) = 1

abbrev pub total : List Seg → ℕ
total [] = 0
total (s ∷ ss) = extent s + total ss

-- The piece `s` at `p`. A hole that reaches the end `limit` of the heap may lack its footer.
pub record IsSeg (m : Mem) (limit p : ℕ) (s : Seg) : Type 0 where
  pub room : 20 ≤ extent s
  pub header : HeaderAt m p (kind s) (extent s)
  pub footer : FooterAt m (p + extent s - 8) p ⊎ ((kind s ≡ 1) × (p + extent s ≡ limit))

-- The pieces fill the memory from `p` to `q`.
abbrev pub Tiled : Mem → (limit p : ℕ) → List Seg → (q : ℕ) → Type 0
Tiled m limit p [] q = p ≡ q
Tiled m limit p (s ∷ ss) q = IsSeg m limit p s × Tiled m limit (p + extent s) ss q

-- The addresses of the holes.
abbrev pub holes : (p : ℕ) → List Seg → List ℕ
holes p [] = []
holes p (block n ∷ ss) = holes (p + n) ss
holes p (hole n ∷ ss) = p ∷ holes (p + n) ss

abbrev pub count : ℕ → List ℕ → ℕ
count x [] = 0
count x (y ∷ ys) = (if x == y then 1 else 0) + count x ys

module _ (m : Mem) (limit : ℕ) where
  pub Tiled-end : (p : ℕ) (ss : List Seg) (q : ℕ) → Tiled m limit p ss q → q ≡ p + total ss
  Tiled-end p [] q t = omega (arith, t)
  Tiled-end p (s ∷ ss) q t = omega (arith, Tiled-end (p + extent s) ss q t.1)

  pub Tiled-append :
      (p : ℕ) (xs ys : List Seg) (q : ℕ)
      → Tiled m limit p xs (p + total xs)
      → Tiled m limit (p + total xs) ys q
      → Tiled m limit p (xs ++ ys) q
  Tiled-append p [] ys q t u = subst (λ a. Tiled m limit a ys q) (omega arith) u
  Tiled-append p (x ∷ xs) ys q t u = (
    t.0,
    Tiled-append (p + extent x) xs ys q
        (subst (λ a. Tiled m limit (p + extent x) xs a) (omega arith) t.1)
        (subst (λ a. Tiled m limit a ys q) (omega arith) u),
  )

  pub Tiled-before :
      (p : ℕ) (xs ys : List Seg) (q : ℕ)
      → Tiled m limit p (xs ++ ys) q
      → Tiled m limit p xs (p + total xs)
  Tiled-before p [] ys q t = omega arith
  Tiled-before p (x ∷ xs) ys q t = (
    t.0,
    subst (λ a. Tiled m limit (p + extent x) xs a) (omega arith)
        (Tiled-before (p + extent x) xs ys q t.1),
  )

  pub Tiled-after :
      (p : ℕ) (xs ys : List Seg) (q : ℕ)
      → Tiled m limit p (xs ++ ys) q
      → Tiled m limit (p + total xs) ys q
  Tiled-after p [] ys q t = subst (λ a. Tiled m limit a ys q) (omega arith) t
  Tiled-after p (x ∷ xs) ys q t =
      subst (λ a. Tiled m limit a ys q) (omega arith) (Tiled-after (p + extent x) xs ys q t.1)

-- Memories that agree from `lo` on up to `hi`.
abbrev pub Agree : (lo hi : ℕ) → Mem → Mem → Type 0
Agree lo hi m m' = (a : ℕ) → lo ≤ a → a < hi → m' a ≡ m a

module _ (m m' : Mem) where
  pub load32-Agree :
      (lo hi p : ℕ) → Agree lo hi m m' → lo ≤ p → p + 4 ≤ hi → load32 m' p ≡ load32 m p
  load32-Agree lo hi p same h k = load32_ext m m' p λ a u v. same a (omega arith) (omega arith)

  pub HeaderAt-Agree :
      (lo hi : ℕ) {p is_hole size : ℕ}
      → Agree lo hi m m'
      → lo ≤ p
      → p + 12 ≤ hi
      → HeaderAt m p is_hole size
      → HeaderAt m' p is_hole size
  HeaderAt-Agree lo hi {p} same h k at = record {
    magic = load32-Agree lo hi p same h (omega arith) ∙ at.magic;
    hole = load32-Agree lo hi (p + 4) same (omega arith) (omega arith) ∙ at.hole;
    size_field = load32-Agree lo hi (p + 8) same (omega arith) (omega arith) ∙ at.size_field;
  }

  pub FooterAt-Agree :
      (lo hi : ℕ) {p header : ℕ}
      → Agree lo hi m m'
      → lo ≤ p
      → p + 8 ≤ hi
      → FooterAt m p header
      → FooterAt m' p header
  FooterAt-Agree lo hi {p} same h k at = record {
    magic = load32-Agree lo hi p same h (omega arith) ∙ at.magic;
    names = load32-Agree lo hi (p + 4) same (omega arith) (omega arith) ∙ at.names;
  }

  pub IsSeg-Agree :
      (limit p : ℕ) (s : Seg) → Agree p (p + extent s) m m' → IsSeg m limit p s → IsSeg m' limit p s
  IsSeg-Agree limit p s same at = record {
    room = at.room;
    header = HeaderAt-Agree p (p + extent s) same (omega arith) (omega (arith, at.room)) at.header;
    footer = elim at.footer [
      | inl f ↦
          inl (
            FooterAt-Agree p (p + extent s) same (omega (arith, at.room)) (omega (arith, at.room))
              f)
      | inr last ↦ inr last
    ];
  }

  pub Tiled-Agree :
      (limit p : ℕ) (ss : List Seg) (q : ℕ)
      → Agree p q m m'
      → Tiled m limit p ss q
      → Tiled m' limit p ss q
  Tiled-Agree limit p [] q same t = t
  Tiled-Agree limit p (s ∷ ss) q same t =
      let e = Tiled-end m limit (p + extent s) ss q t.1 in
      (
        IsSeg-Agree limit p s (λ a lo hi. same a (omega arith) (omega (arith, e))) t.0,
        Tiled-Agree limit (p + extent s) ss q (λ a lo hi. same a (omega arith) (omega arith)) t.1,
      )
