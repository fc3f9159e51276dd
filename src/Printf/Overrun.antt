-- ===== src/Printf/Overrun.antt =====
-- vprintf on a format whose last character is a `%`.
use james_m.Base.{
  ℕ, zero, suc, ◌+◌, ◌≤◌, ◌<◌, ◌≡◌, ap, subst, arith, List, [], ◌∷◌, ◌++◌, ok, add32, u32, length,
  length-append,
}
use mathlib.Core.List.{append_assoc}
use james_m.Memory.{Mem}
use james_m.Memory.Text.{IsText}
use james_m.Monitor.{Screen, mon_putchar}
use james_m.Printf.{conversion, vprintf_round, vprintf_loop, vprintf}
use james_m.Printf.Pieces.{
  Piece, piece_format, piece_args, formats, args, weights, ArePieces, AllRendered, nothing,
  then_piece, put_all, at, count, count-append, count-length, put_all-append, IsText-after,
  weight-pos, round-Prints, vprintf_loop-AllRendered,
}

-- The rounds over the pieces at the front of a format.
vprintf_loop-front :
    (fuel : ℕ) (m : Mem) (a : ℕ) (ps : List Piece) (rest ws : List ℕ) (r : ℕ) (s : Screen)
    → ArePieces m ps
    → weights ps < fuel
    → IsText m a (formats ps ++ rest)
    → (out : List ℕ) × (left : ℕ) × AllRendered ps out
      × (fuel ≤ left + weights ps)
      × (vprintf_loop fuel m (at a (args ps ++ ws) r s)
          ≡ vprintf_loop left m (at (a + length (formats ps)) ws (count out r) (put_all out s)))
unfolding vprintf_loop
vprintf_loop-front zero m a ps rest ws r s good enough text = absurd (omega arith)
vprintf_loop-front (suc fuel) m a [] rest ws r s good enough text = (
  [],
  suc fuel,
  nothing,
  omega arith,
  ap (λ b. vprintf_loop (suc fuel) m (at b ws r s)) (omega arith),
)
vprintf_loop-front (suc fuel) m a (p ∷ ps) rest ws r s good enough text =
    let text' = subst (IsText m a) (append_assoc (piece_format p) (formats ps) rest) text in
    let args' = append_assoc (piece_args p) (args ps) ws in
    let (out, one, e) =
      round-Prints m fuel a (formats ps ++ rest) (args ps ++ ws) r s p good.0 (omega arith) text' in
    let (more, left, others, enough', f) =
      vprintf_loop-front fuel m (a + length (piece_format p)) ps rest ws (count out r)
        (put_all out s) good.1 (omega (arith, weight-pos p))
        (IsText-after m a (piece_format p) (formats ps ++ rest) text') in
    (
      out ++ more,
      left,
      then_piece one others,
      omega (arith, enough', weight-pos p),
      rw (args', e, f, count-append out more r, put_all-append out more s)
          (ap
            (λ (b : ℕ).
              vprintf_loop left m
                (at b ws (count more (count out r)) (put_all more (put_all out s))))
            (omega (arith, length-append (piece_format p) (formats ps)))),
    )

-- A format of pieces that ends in a `%`, where the memory goes on behind its end with another text of
-- pieces, with the arguments of both, and more fuel than both need and one round: vprintf prints what the
-- pieces before the `%` stand for, then the zero byte, and then, past the end of the format, what the
-- pieces behind it stand for; all of it counts in what it returns.
pub vprintf-overrun :
    (fuel : ℕ) (m : Mem) (fmt : ℕ) (ps qs : List Piece) (s : Screen)
    → ArePieces m ps
    → ArePieces m qs
    → weights ps + weights qs + 1 < fuel
    → IsText m fmt (formats ps ++ (b'%' ∷ []))
    → IsText m (fmt + length (formats ps) + 2) (formats qs)
    → (out : List ℕ) × (more : List ℕ) × AllRendered ps out
      × AllRendered qs more
      × (vprintf fuel m fmt (args ps ++ args qs) s
          ≡ ok (u32 (length out + 1 + length more), put_all more (mon_putchar 0 (put_all out s))))
unfolding vprintf vprintf_loop vprintf_round conversion
vprintf-overrun fuel m fmt ps qs s good good' enough text text' =
    let (out, left, all, enough', e) =
      vprintf_loop-front fuel m fmt ps (b'%' ∷ []) (args qs) 0 s good (omega arith) text in
    overrun out left all enough' e
  where
    here : IsText m (fmt + length (formats ps)) (b'%' ∷ [])
    here = IsText-after m fmt (formats ps) (b'%' ∷ []) text

    overrun :
        (out : List ℕ) (left : ℕ)
        → AllRendered ps out
        → fuel ≤ left + weights ps
        → vprintf_loop fuel m (at fmt (args ps ++ args qs) 0 s)
          ≡ vprintf_loop left m
              (at (fmt + length (formats ps)) (args qs) (count out 0) (put_all out s))
        → (out : List ℕ) × (more : List ℕ) × AllRendered ps out
          × AllRendered qs more
          × (vprintf fuel m fmt (args ps ++ args qs) s
              ≡ ok (
                u32 (length out + 1 + length more),
                put_all more (mon_putchar 0 (put_all out s)),
              ))
    overrun out zero all most e = absurd (omega (arith, most, enough))
    overrun out (suc left) all most e =
        let (more, others, f) =
          vprintf_loop-AllRendered left m (fmt + length (formats ps) + 2) qs (add32 (count out 0) 1)
            (mon_putchar 0 (put_all out s)) good' (omega (arith, most, enough)) text' in
        let first : count out 0 ≡ u32 (0 + length out) = count-length out 0 (omega arith) in
        let all_of_it : count more (add32 (count out 0) 1) ≡ u32 (length out + 1 + length more) =
          omega (arith, count-length more (add32 (count out 0) 1) (omega arith), first) in
        (out, more, all, others, rw (e, here.0, here.3, f, all_of_it))
