-- ===== src/SortedArray/Cells.antt =====
-- The entries of an array in memory as a list.
use james_m.Base.{
  ℕ, zero, suc, ◌+◌, ◌≤◌, ◌<◌, ◌≡◌, refl, ap₂, ◌⊎◌, List, [], ◌∷◌, arith, get_elem?, some, none,
  length,
}
use james_m.Memory.{Mem, load32, store32}
use james_m.Memory.Words.{load32-store32_ne}
use james_m.SortedArray.{slot}

-- The entries `i`, …, `i + n - 1` of the array at `arr`.
unfoldable pub cells : Mem → ℕ → ℕ → ℕ → List ℕ
cells m arr i zero = []
cells m arr i (suc n) = load32 m (slot arr i) ∷ cells m arr (i + 1) n

pub cells-zero : (m : Mem) (arr i : ℕ) → cells m arr i 0 ≡ []
unfolding cells
cells-zero m arr i = refl

-- The tactics see one entry at a time through this equation, with `cells` shut.
pub cells-suc :
    (m : Mem) (arr i n : ℕ) → cells m arr i (suc n) ≡ load32 m (slot arr i) ∷ cells m arr (i + 1) n
unfolding cells
cells-suc m arr i n = refl

pub length-cells : (m : Mem) (arr i n : ℕ) → length (cells m arr i n) ≡ n
unfolding cells
length-cells m arr i zero = refl
length-cells m arr i (suc n) = omega (arith, length-cells m arr (i + 1) n)

pub get_elem?-cells :
    (m : Mem) (arr i n k : ℕ)
    → k < n
    → get_elem? (cells m arr i n) k ≡ some (load32 m (slot arr (i + k)))
unfolding cells
get_elem?-cells m arr i zero k h = absurd (omega arith)
get_elem?-cells m arr i (suc n) zero h = ground arith
get_elem?-cells m arr i (suc n) (suc k) h =
    ground (arith, get_elem?-cells m arr (i + 1) n k (omega arith))

pub get_elem?-cells-none : (m : Mem) (arr i n k : ℕ) → n ≤ k → get_elem? (cells m arr i n) k ≡ none
unfolding cells
get_elem?-cells-none m arr i zero k h = refl
get_elem?-cells-none m arr i (suc n) zero h = absurd (omega arith)
get_elem?-cells-none m arr i (suc n) (suc k) h =
    get_elem?-cells-none m arr (i + 1) n k (omega arith)

-- The entries depend on nothing but the words in their range.
pub cells_ext :
    (m m' : Mem) (arr i n : ℕ)
    → ((k : ℕ) → i ≤ k → k < i + n → load32 m' (slot arr k) ≡ load32 m (slot arr k))
    → cells m' arr i n ≡ cells m arr i n
unfolding cells
cells_ext m m' arr i zero h = refl
cells_ext m m' arr i (suc n) h =
    ap₂ ◌∷◌ (h i (omega arith) (omega arith))
      (cells_ext m m' arr (i + 1) n λ k p q. h k (omega arith) (omega arith))

-- A write outside a range of entries leaves them as they are.
pub cells-store32_ne :
    (m : Mem) (arr i n p v : ℕ)
    → (p + 4 ≤ slot arr i) ⊎ (slot arr (i + n) ≤ p)
    → cells (store32 m p v) arr i n ≡ cells m arr i n
cells-store32_ne m arr i n p v h =
    cells_ext m (store32 m p v) arr i n
      λ k lo hi. load32-store32_ne m p (slot arr k) v (omega arith)
