-- ===== src/Jobs/Stream/Pieces.antt =====
-- The pieces into which `Job.events` cuts a chunk.
use libjadx.Base.{
  ℕ, zero, suc, ◌-◌, ◌≤◌, ◌<◌, List, [], ◌∷◌, ◌++◌, length, ◌≡◌, refl, ap, ◌∙◌, arith, All,
}
use libjadx.Sse.{Bytes}
use libjadx.Jobs.Stream.{take, drop, pieces}

take-drop : {A : Type 0} (n : ℕ) (xs : List A) → take n xs ++ drop n xs ≡ xs
take-drop zero xs = refl
take-drop (suc n) [] = refl
take-drop (suc n) (x ∷ xs) = ap (λ l. x ∷ l) (take-drop n xs)

length-drop : {A : Type 0} (n : ℕ) (xs : List A) → length (drop n xs) ≡ length xs - n
length-drop zero xs = omega arith
length-drop (suc n) [] = omega arith
length-drop (suc n) (x ∷ xs) = omega (arith, length-drop n xs)

length-take : {A : Type 0} (n : ℕ) (xs : List A) → length (take n xs) ≤ n
length-take zero xs = omega arith
length-take (suc n) [] = omega arith
length-take (suc n) (x ∷ xs) = omega (arith, length-take n xs)

abbrev pub concat : List Bytes → Bytes
concat [] = []
concat (x ∷ xs) = x ++ concat xs

-- The pieces of a chunk are its bytes in order, and none is larger than the size.
pub pieces_whole :
    (n size : ℕ) (chunk : Bytes)
    → 0 < size
    → length chunk ≤ n
    → (concat (pieces n size chunk) ≡ chunk)
      × All (λ piece. length piece ≤ size) (pieces n size chunk)
unfolding pieces
pieces_whole zero size [] s f = (refl, tt)
pieces_whole zero size (b ∷ bs) s f = absurd (omega arith)
pieces_whole (suc n) size [] s f = (refl, tt)
pieces_whole (suc n) size (b ∷ bs) s f =
    let (whole, small) =
      pieces_whole n size (drop size (b ∷ bs)) s (omega (arith, length-drop size (b ∷ bs))) in
    (
      ap (λ l. take size (b ∷ bs) ++ l) whole ∙ take-drop size (b ∷ bs),
      (length-take size (b ∷ bs), small),
    )
