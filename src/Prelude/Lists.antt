-- ===== src/Prelude/Lists.antt =====
-- Lists measured and indexed by native numbers, under the library's names.
use Prim.Native.Nat.{ℕ, zero, suc, ◌+◌, ◌-◌, ◌≤◌}
use mathlib.Core.Path.{◌≡◌, refl, sym, ap, ◌∙◌}
use mathlib.Core.List.{List, [], ◌∷◌, ◌++◌, append-nil, append_assoc}
use native.Mathlib.Omega.{arith}

module _ {ℓ} {A : Type ℓ} where
  abbrev pub length : List A → ℕ
  length [] = 0
  length (x ∷ xs) = suc (length xs)

  abbrev pub get_or : List A → ℕ → A → A
  get_or [] i d = d
  get_or (x ∷ xs) zero d = x
  get_or (x ∷ xs) (suc i) d = get_or xs i d

  -- A write out of bounds changes nothing.
  abbrev pub set : List A → ℕ → A → List A
  set [] i v = []
  set (x ∷ xs) zero v = v ∷ xs
  set (x ∷ xs) (suc i) v = x ∷ set xs i v

  abbrev pub take : ℕ → List A → List A
  take zero xs = []
  take (suc n) [] = []
  take (suc n) (x ∷ xs) = x ∷ take n xs

  abbrev pub drop : ℕ → List A → List A
  drop zero xs = xs
  drop (suc n) [] = []
  drop (suc n) (x ∷ xs) = drop n xs

  abbrev pub replicate : ℕ → A → List A
  replicate zero a = []
  replicate (suc n) a = a ∷ replicate n a

  pub length-append : (xs ys : List A) → length (xs ++ ys) ≡ length xs + length ys
  length-append [] ys = omega arith
  length-append (x ∷ xs) ys = omega (arith, length-append xs ys)

  -- The last `c` items.
  abbrev pub keep_last : ℕ → List A → List A
  keep_last c xs = drop (length xs - c) xs

  length-drop : (n : ℕ) (xs : List A) → length (drop n xs) ≡ length xs - n
  length-drop zero xs = omega arith
  length-drop (suc n) [] = omega arith
  length-drop (suc n) (x ∷ xs) = omega (arith, length-drop n xs)

  drop-append : (n : ℕ) (xs ys : List A) → n ≤ length xs → drop n (xs ++ ys) ≡ drop n xs ++ ys
  drop-append zero xs ys h = refl
  drop-append (suc n) [] ys h = absurd (omega arith)
  drop-append (suc n) (x ∷ xs) ys h = drop-append n xs ys (omega arith)

  drop-nil : (n : ℕ) → drop n [] ≡ []
  drop-nil zero = refl
  drop-nil (suc n) = refl

  drop-drop : (m n : ℕ) (xs : List A) → drop m (drop n xs) ≡ drop (n + m) xs
  drop-drop m zero xs = ap (λ d. drop d xs) {y = zero + m} (omega arith)
  drop-drop m (suc n) [] = drop-nil m ∙ sym (drop-nil (suc n + m))
  drop-drop m (suc n) (x ∷ xs) =
      drop-drop m n xs ∙ ap (λ d. drop d (x ∷ xs)) {x = suc (n + m)} (omega arith)

  -- A sequence of at most `c` items takes one more at its end, and forgets the oldest if it was full.
  abbrev pub remember : ℕ → List A → A → List A
  remember c xs x = keep_last c (xs ++ x ∷ [])

  abbrev pub remember_all : ℕ → List A → List A → List A
  remember_all c xs [] = xs
  remember_all c xs (y ∷ ys) = remember_all c (remember c xs y) ys

  remember-keep_last :
      (c : ℕ) (xs : List A) (x : A) → remember c (keep_last c xs) x ≡ keep_last c (xs ++ x ∷ [])
  remember-keep_last c xs x =
      ap (λ ys. drop (length (keep_last c xs ++ x ∷ []) - c) ys)
        (sym (drop-append (length xs - c) xs (x ∷ []) (omega arith)))
      ∙ drop-drop (length (keep_last c xs ++ x ∷ []) - c) (length xs - c) (xs ++ x ∷ [])
      ∙ ap (λ d. drop d (xs ++ x ∷ []))
          (omega (
            arith,
            length-append xs (x ∷ []),
            length-append (keep_last c xs) (x ∷ []),
            length-drop (length xs - c) xs,
          ))

  -- What is left of a whole sequence is its last `c` items.
  pub remember_all-keep_last :
      (c : ℕ) (xs ys : List A) → remember_all c (keep_last c xs) ys ≡ keep_last c (xs ++ ys)
  remember_all-keep_last c xs [] = ap (keep_last c) (sym (append-nil xs))
  remember_all-keep_last c xs (y ∷ ys) =
      ap (λ zs. remember_all c zs ys) (remember-keep_last c xs y)
      ∙ remember_all-keep_last c (xs ++ y ∷ []) ys
      ∙ ap (keep_last c) (append_assoc xs (y ∷ []) ys)

  pub remember_all-nil : (c : ℕ) (ys : List A) → remember_all c [] ys ≡ keep_last c ys
  remember_all-nil c ys =
      ap (λ zs. remember_all c zs ys) (sym (drop-nil (0 - c))) ∙ remember_all-keep_last c [] ys
