-- ===== src/Values/Lists.antt =====
-- Chunks put together are the text, and a normalised list holds each item once.
use ghcp_pool_go.Base.{
  ℕ, zero, suc, ◌-◌, ◌≤◌, ◌<◌, ◌≡◌, refl, ap, ◌∙◌, false, List, [], ◌∷◌, ◌++◌, arith, any, All,
  take, drop, length, ℤ, Text, text_eq, is_empty, trim_space,
}
use ghcp_pool_go.Values.{
  normalize_from, normalize_string_list, chunks_from, chunk_size, char_chunks,
}

abbrev pub join : List Text → Text
join [] = []
join (s ∷ ss) = s ++ join ss

take-drop : (n : ℕ) (s : Text) → take n s ++ drop n s ≡ s
take-drop zero s = refl
take-drop (suc n) [] = refl
take-drop (suc n) (c ∷ s) = ap (λ t. c ∷ t) (take-drop n s)

length-drop : (n : ℕ) (s : Text) → length (drop n s) ≤ length s - n
length-drop zero s = omega arith
length-drop (suc n) [] = omega arith
length-drop (suc n) (c ∷ s) = omega (arith, length-drop n s)

length-take : (n : ℕ) (s : Text) → length (take n s) ≤ n
length-take zero s = omega arith
length-take (suc n) [] = omega arith
length-take (suc n) (c ∷ s) = omega (arith, length-take n s)

join-chunks_from :
    (fuel size : ℕ) (s : Text) → 0 < size → length s ≤ fuel → join (chunks_from fuel size s) ≡ s
unfolding chunks_from
join-chunks_from zero size [] p h = refl
join-chunks_from zero size (c ∷ s) p h = absurd (omega arith)
join-chunks_from (suc fuel) size [] p h = refl
join-chunks_from (suc fuel) size (c ∷ s) p h =
    ap (λ t. take size (c ∷ s) ++ t)
      (join-chunks_from fuel size (drop size (c ∷ s)) p (omega (arith, length-drop size (c ∷ s))))
    ∙ take-drop size (c ∷ s)

-- Each chunk has a character, and as many as asked for at most.
abbrev pub Fits : ℕ → Text → Type 0
Fits size s = (0 < length s) × (length s ≤ size)

chunks_from-Fits : (fuel size : ℕ) (s : Text) → 0 < size → All (Fits size) (chunks_from fuel size s)
unfolding chunks_from
chunks_from-Fits zero size s p = tt
chunks_from-Fits (suc fuel) size [] p = tt
chunks_from-Fits (suc fuel) (suc size) (c ∷ s) p = (
  (omega arith, length-take (suc size) (c ∷ s)),
  chunks_from-Fits fuel (suc size) (drop (suc size) (c ∷ s)) p,
)
chunks_from-Fits (suc fuel) zero (c ∷ s) p = absurd (omega arith)

chunk_size-pos : (size : ℤ) → 0 < chunk_size size
chunk_size-pos size = ground arith

-- The chunks of a text, in order, are the text: none is lost and none is empty, and none is longer
-- than the size asked for (24 where that is not positive).
pub join-char_chunks :
    (s : Text) (size : ℤ)
    → (join (char_chunks s size) ≡ s) × All (Fits (chunk_size size)) (char_chunks s size)
unfolding char_chunks
join-char_chunks s size = (
  join-chunks_from (length s) (chunk_size size) s (chunk_size-pos size) (omega arith),
  chunks_from-Fits (length s) (chunk_size size) s (chunk_size-pos size),
)

-- No item is empty or among those seen, and none comes twice.
abbrev pub Distinct : List Text → List Text → Type 0
Distinct seen [] = Unit
Distinct seen (t ∷ ts) =
    (is_empty t ≡ false) × (any (text_eq t) seen ≡ false) × Distinct (t ∷ seen) ts

normalize_from-Distinct : (seen items : List Text) → Distinct seen (normalize_from seen items)
unfolding normalize_from
normalize_from-Distinct seen [] = tt
normalize_from-Distinct seen (item ∷ items) = ground (
  arith,
  normalize_from-Distinct seen items,
  normalize_from-Distinct (trim_space item ∷ seen) items,
)

-- A normalised list has no empty item and no item twice.
pub normalize_string_list-Distinct : (items : List Text) → Distinct [] (normalize_string_list items)
unfolding normalize_string_list
normalize_string_list-Distinct items = normalize_from-Distinct [] items
