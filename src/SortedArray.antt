-- ===== src/SortedArray.antt =====
-- src/sorted_array.c: an array of pointers, kept in the order of a comparison function.
--
-- The array stands in the machine's memory, so each operation takes the memory and returns it. The
-- comparison function reads through the pointers that it is given, so it takes the memory too; its
-- result is the bit pattern of an int.
pub mod Cells
pub mod Insert
pub mod Remove
pub mod Order
pub mod Ends
mod Tests
use james_m.Base.{
  ℕ, zero, suc, ◌+◌, ◌-◌, ◌*◌, Bool, true, false, Option, none, some, Run, ok, kassert, ◌>>=◌, ◌>>◌,
  ltb, ◌==◌, if◌then◌else◌, is_negative, panic, sub32,
}
use james_m.Memory.{Mem, load32, store32, bzero}

abbrev pub Cmp : Type 0
Cmp = Mem → ℕ → ℕ → ℕ

-- A null `sa_cmp` is `none`.
pub record SortedArray : Type 0 where
  pub sa_array : ℕ
  pub sa_size : ℕ
  pub sa_maxsize : ℕ
  pub sa_cmp : Option Cmp

-- The address of `sa_array[i]`.
abbrev pub slot : ℕ → ℕ → ℕ
slot arr i = arr + 4 * i

unfoldable pub default_cmp_func : Cmp
default_cmp_func m a b = sub32 a b

unfoldable pub place_sorted_array : Mem → ℕ → ℕ → Option Cmp → Mem × SortedArray
place_sorted_array m addr maxsize cmp = (
  bzero m addr (maxsize * 4),
  record { sa_array = addr; sa_size = 0; sa_maxsize = maxsize; sa_cmp = cmp },
)

-- `while (iterator < sa_size && sa_cmp(sa_array[iterator], el) < 0) iterator++;`, with `left`
-- entries not yet looked at.
unfoldable pub find_place : Mem → Cmp → ℕ → ℕ → (left iterator : ℕ) → ℕ
find_place m cmp arr el zero iterator = iterator
find_place m cmp arr el (suc left) iterator =
    let next = find_place m cmp arr el left (iterator + 1) in
    if is_negative (cmp m (load32 m (slot arr iterator)) el) then next else iterator

-- `while (iterator < sa_size)`: each entry takes the place of the one above it.
unfoldable pub shift_up : ℕ → (left iterator tmp : ℕ) → Mem → Mem
shift_up arr zero iterator tmp m = m
shift_up arr (suc left) iterator tmp m =
    shift_up arr left (iterator + 1) (load32 m (slot arr (iterator + 1)))
      (store32 m (slot arr (iterator + 1)) tmp)

-- The part of `insert_sorted_array` that follows the search.
unfoldable pub place_at : Mem → SortedArray → ℕ → ℕ → Mem
unfolding shift_up
place_at m a el iterator =
    if iterator == a.sa_size
    then store32 m (slot a.sa_array a.sa_size) el
    else shift_up a.sa_array (a.sa_size - iterator) iterator (load32 m (slot a.sa_array iterator))
        (store32 m (slot a.sa_array iterator) el)

abbrev with_cmp {ℓ} : {A : Type ℓ} → Option Cmp → (Cmp → Run A) → Run A
with_cmp none k = panic
with_cmp (some cmp) k = k cmp

unfoldable pub insert_sorted_array : Mem → SortedArray → ℕ → Run (Mem × SortedArray)
unfolding find_place place_at
insert_sorted_array m a el = with_cmp a.sa_cmp λ cmp. do
  kassert (ltb a.sa_size a.sa_maxsize)
  let iterator = find_place m cmp a.sa_array el a.sa_size 0
  ok (place_at m a el iterator, record a { sa_size = a.sa_size + 1 })

unfoldable pub lookup_sorted_array : Mem → SortedArray → ℕ → Run ℕ
lookup_sorted_array m a i = do kassert (ltb i a.sa_size); ok (load32 m (slot a.sa_array i))

-- `while (i < sa_size) { sa_array[i] = sa_array[i + 1]; i++; }`. The last round reads the entry at
-- `sa_size`.
unfoldable pub shift_down : ℕ → (left i : ℕ) → Mem → Mem
shift_down arr zero i m = m
shift_down arr (suc left) i m =
    shift_down arr left (i + 1) (store32 m (slot arr i) (load32 m (slot arr (i + 1))))

unfoldable pub remove_sorted_array : Mem → SortedArray → ℕ → Run (Mem × SortedArray)
unfolding shift_down
remove_sorted_array m a i = do
  kassert (ltb i a.sa_size)
  ok (shift_down a.sa_array (a.sa_size - i) i m, record a { sa_size = a.sa_size - 1 })
