-- ===== src/Go/Text/Trim.antt =====
-- Laws of `trim_space`: what it leaves has no white space at either end and is a part of the
-- input, and a text without white space at its ends is left as it is.
use mathlib.Core.List.{reverse-append, reverse-reverse}
use arxveil.Prelude.{
  ℕ, zero, suc, ◌≤◌, ◌≡◌, refl, sym, ap, subst, ◌∙◌, [], ◌∷◌, ◌++◌, reverse, length, length-append,
  arith,
}
use arxveil.Go.Text.{Bytes, space_width, space_width_back, strip, trim_left, trim_right, trim_space}

module _ (width : Bytes → ℕ) where
  width-strip : width [] ≡ 0 → (n : ℕ) (s : Bytes) → width (strip width n s) ≡ 0
  unfolding strip
  width-strip h zero [] = h
  width-strip h (suc n) [] = h
  width-strip h (suc n) (x ∷ xs) = width-strip h n xs
  width-strip h zero (x ∷ xs) = go (width (x ∷ xs)) refl (λ w. width-strip h w xs)
    where
      go :
          (w : ℕ)
          → width (x ∷ xs) ≡ w
          → ((k : ℕ) → width (strip width k xs) ≡ 0)
          → width (elim w [ zero ↦ x ∷ xs | suc k ↦ strip width k xs ]) ≡ 0
      go zero e ih = e
      go (suc k) e ih = ih k

  strip-suffix : (n : ℕ) (s : Bytes) → (p : Bytes) × (s ≡ p ++ strip width n s)
  unfolding strip
  strip-suffix zero [] = ([], refl)
  strip-suffix (suc n) [] = ([], refl)
  strip-suffix (suc n) (x ∷ xs) = let (p, e) = strip-suffix n xs in (x ∷ p, ap (λ l. x ∷ l) e)
  strip-suffix zero (x ∷ xs) = go (width (x ∷ xs)) (λ w. strip-suffix w xs)
    where
      go :
          (w : ℕ)
          → ((k : ℕ) → (p : Bytes) × (xs ≡ p ++ strip width k xs))
          → (p : Bytes) × (x ∷ xs ≡ p ++ elim w [ zero ↦ x ∷ xs | suc k ↦ strip width k xs ])
      go zero ih = ([], refl)
      go (suc k) ih = let (p, e) = ih k in (x ∷ p, ap (λ l. x ∷ l) e)

  strip-fixed : (s : Bytes) → width s ≡ 0 → strip width 0 s ≡ s
  unfolding strip
  strip-fixed [] h = refl
  strip-fixed (x ∷ xs) h = rw (h, strip)

space_width-prefix : (p q : Bytes) → space_width (p ++ q) ≡ 0 → space_width p ≡ 0
unfolding space_width
space_width-prefix [] q h = refl
space_width-prefix (a ∷ []) [] h = h
space_width-prefix (a ∷ []) (b ∷ []) h = ground arith
space_width-prefix (a ∷ []) (b ∷ c ∷ r) h = ground arith
space_width-prefix (a ∷ b ∷ []) [] h = h
space_width-prefix (a ∷ b ∷ []) (c ∷ r) h = ground arith
space_width-prefix (a ∷ b ∷ c ∷ p) q h = h

module _ (s : Bytes) where
  trim_right-prefix : (q : Bytes) × (s ≡ trim_right s ++ q)
  unfolding trim_right
  trim_right-prefix =
      let (p, e) = strip-suffix space_width_back 0 (reverse s) in
      (
        reverse p,
        sym (reverse-reverse s)
            ∙ ap reverse e
            ∙ reverse-append p (strip space_width_back 0 (reverse s)),
      )

-- No white space rune stands at either end.
pub record IsTrimmed (s : Bytes) : Type 0 where
  pub front : space_width s ≡ 0
  pub back : space_width_back (reverse s) ≡ 0

pub trim_space-IsTrimmed : (s : Bytes) → IsTrimmed (trim_space s)
unfolding trim_space
trim_space-IsTrimmed s = record {
  front =
      let (q, e) = trim_right-prefix (trim_left s) in
      space_width-prefix (trim_right (trim_left s)) q
        (subst (λ t. space_width t ≡ 0) e (width-strip space_width refl 0 s));
  back =
      rw (reverse-reverse (strip space_width_back 0 (reverse (trim_left s))))
        (width-strip space_width_back refl 0 (reverse (trim_left s)));
}

pub trim_space-fixed : (s : Bytes) → IsTrimmed s → trim_space s ≡ s
unfolding trim_space
trim_space-fixed s t =
    rw (strip-fixed space_width s t.front)
      (ap reverse (strip-fixed space_width_back (reverse s) t.back) ∙ reverse-reverse s)

pub trim_space-trim_space : (s : Bytes) → trim_space (trim_space s) ≡ trim_space s
trim_space-trim_space s = trim_space-fixed (trim_space s) (trim_space-IsTrimmed s)

-- What is left stands in the input as one piece.
pub trim_space-infix : (s : Bytes) → (p q : Bytes) × (s ≡ p ++ (trim_space s ++ q))
unfolding trim_space
trim_space-infix s =
    let (p, e) = strip-suffix space_width 0 s in
    let (q, e') = trim_right-prefix (trim_left s) in (p, q, e ∙ ap (λ t. p ++ t) e')

pub length-trim_space-le : (s : Bytes) → length (trim_space s) ≤ length s
length-trim_space-le s =
    let (p, q, e) = trim_space-infix s in
    omega (arith, ap length e, length-append p (trim_space s ++ q), length-append (trim_space s) q)
