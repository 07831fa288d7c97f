-- ===== src/Filc/Printing/Line.antt =====
-- filc/retrieval.go: the width of the progress line.
use filclient.Base.{
  ℕ, zero, suc, ◌+◌, ◌-◌, ◌≤◌, ◌≡◌, refl, ap, sym, ◌∙◌, Bool-cases, inl, inr, some, [], ◌∷◌, ◌++◌,
  length, length-append, ltb, arith,
}
use filclient.Filc.Printing.{Bytes, space, repeat, take, progress_line}

length-repeat : (c n : ℕ) → length (repeat c n) ≡ n
length-repeat c zero = refl
length-repeat c (suc n) = ap suc (length-repeat c n)

length-take : (n : ℕ) (xs : Bytes) → n ≤ length xs → length (take n xs) ≡ n
length-take zero xs h = refl
length-take (suc n) [] h = omega (arith, h)
length-take (suc n) (x ∷ xs) h = ap suc (length-take n xs (omega (arith, h)))

take-all : (n : ℕ) (xs : Bytes) → length xs ≤ n → take n xs ≡ xs
take-all zero [] h = refl
take-all zero (x ∷ xs) h = absurd (omega (arith, h))
take-all (suc n) [] h = refl
take-all (suc n) (x ∷ xs) h = ap (◌∷◌ x) (take-all n xs (omega (arith, h)))

take-append : (xs ys : Bytes) → take (length xs) (xs ++ ys) ≡ xs
take-append [] ys = refl
take-append (x ∷ xs) ys = ap (◌∷◌ x) (take-append xs ys)

-- On a terminal, the progress line has exactly the width of the terminal; if the text is shorter, the
-- line starts with the text, and otherwise it is the text's first bytes.
pub progress_line-width :
    (width : ℕ) (str : Bytes)
    → (length (progress_line (some width) str) ≡ width)
      × ((length str ≤ width → take (length str) (progress_line (some width) str) ≡ str)
          × (width ≤ length str → progress_line (some width) str ≡ take width str))
unfolding progress_line
progress_line-width width str = elim (Bool-cases (ltb (length str) width)) [
  | inl e ↦ rw e (
    length-append str _
        ∙ ap (λ n. length str + n) (length-repeat space (width - length str))
        ∙ ground arith,
    (λ h. take-append str _, λ h. absurd (ground arith)),
  )
  | inr e ↦ rw e (elim (Bool-cases (ltb width (length str))) [
    | inl f ↦ rw f (length-take width str (ground arith), (λ h. absurd (ground arith), λ h. refl))
    | inr f ↦ rw f (
      ground arith,
      (λ h. take-all (length str) str (ground arith), λ h. sym (take-all width str (ground arith))),
    )
  ])
]
