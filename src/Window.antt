-- ===== src/Window.antt =====
-- A ring of `k` slots read as a sequence: the `n` slots from slot `s` on, going round at `k`.
-- This is the abstract view of a circular buffer: a sequence that keeps its last items.
use sik_telnet_radio.Prelude.{
  ℕ, zero, suc, ◌+◌, ◌-◌, ◌%◌, ◌≤◌, ◌<◌, ◌≡◌, refl, sym, ap, ap₂, ◌∙◌, ◌≢◌, List, [], ◌∷◌, ◌++◌,
  arith, mod-eq_of_lt, mod-eq-sub-mod, dec_lt, length, drop, set, keep_last, length-append, ltb,
  if◌then◌else◌, le→ltb, lt→ltb,
}

-- One slot further round the ring, without `%`: what `(s + n) % k` is for `s` and `n` below `k`.
abbrev pub turn : ℕ → ℕ → ℕ → ℕ
turn k s n = if ltb (s + n) k then s + n else s + n - k

pub mod-turn : (k s n : ℕ) → s < k → n ≤ k → (s + n) % k ≡ turn k s n
mod-turn k s n hs hn = elim (dec_lt (s + n) k) [
  | yes p ↦ ground (arith, mod-eq_of_lt p)
  | no p ↦ ground (
    arith,
    mod-eq-sub-mod {n = s + n} {m = k} (omega arith),
    mod-eq_of_lt {n = s + n - k} {m = k} (omega arith),
  )
]

module _ {ℓ} {A : Type ℓ} where
  abbrev pub window : (ℕ → A) → ℕ → ℕ → ℕ → List A
  window f k s zero = []
  window f k s (suc n) = f s ∷ window f k (turn k s 1) n

  pub length-window : (f : ℕ → A) (k s n : ℕ) → length (window f k s n) ≡ n
  length-window f k s zero = refl
  length-window f k s (suc n) = ap suc (length-window f k (turn k s 1) n)

  -- The last slot of a window stands apart.
  pub window-suc :
      (f : ℕ → A) (k s n : ℕ)
      → s < k
      → n < k
      → window f k s (suc n) ≡ window f k s n ++ f (turn k s n) ∷ []
  window-suc f k s zero hs hn = ap (λ i. f i ∷ []) (ground arith)
  window-suc f k s (suc n) hs hn = ap (◌∷◌ (f s)) (
      window-suc f k (turn k s 1) n (ground arith) (ground arith)
      ∙ ap (λ i. window f k (turn k s 1) n ++ f i ∷ []) (ground arith))

  -- A window does not see a change of the slot behind it.
  pub window_frame :
      (f g : ℕ → A) (k s n i : ℕ)
      → s < k
      → n ≤ i
      → i < k
      → ((j : ℕ) → j < k → j ≢ turn k s i → g j ≡ f j)
      → window g k s n ≡ window f k s n
  window_frame f g k s zero i hs hn hi same = refl
  window_frame f g k s (suc n) i hs hn hi same = ap₂ ◌∷◌ (same s hs (ground arith)) (
      window_frame f g k (turn k s 1) n (i - 1) (ground arith) (omega arith) (omega arith)
        (λ j hj ne. same j hj (λ e. ne (e ∙ ground arith))))

-- Where a ring of `k` slots, `n` of them in the window from `s`, stands when one more slot is filled:
-- one slot stays outside of the window.
abbrev pub next_tail : ℕ → ℕ → ℕ → ℕ
next_tail k s n = if ltb (n + 1) k then s else turn k s 1

abbrev pub next_count : ℕ → ℕ → ℕ
next_count k n = if ltb (n + 1) k then n + 1 else n

module _ {ℓ} {A : Type ℓ} where
  keep_last_all : (c : ℕ) (xs : List A) → length xs ≤ c → keep_last c xs ≡ xs
  keep_last_all c xs h = ap (λ d. drop d xs) {y = 0} (omega arith)

  keep_last_cons : (c : ℕ) (x : A) (xs : List A) → length xs ≡ c → keep_last c (x ∷ xs) ≡ xs
  keep_last_cons c x xs h = ap (λ d. drop d (x ∷ xs)) {y = 1} (omega arith)

  length-snoc : (f : ℕ → A) (k s n : ℕ) (x : A) → length (window f k s n ++ x ∷ []) ≡ n + 1
  length-snoc f k s n x =
      omega (arith, length-append {ℓ} (window f k s n) (x ∷ []), length-window f k s n)

  -- Filling the slot behind a window that is not full adds it, and loses nothing.
  window_grow :
      (f g : ℕ → A) (k s n : ℕ)
      → s < k
      → n + 1 < k
      → ((j : ℕ) → j < k → j ≢ turn k s n → g j ≡ f j)
      → window g k s (n + 1) ≡ keep_last (k - 1) (window f k s n ++ g (turn k s n) ∷ [])
  window_grow f g k s n hs hn same =
      ap (window g k s) {y = suc n} (omega arith)
      ∙ window-suc g k s n hs (omega arith)
      ∙ ap (λ w. w ++ g (turn k s n) ∷ [])
          (window_frame f g k s n n hs (omega arith) (omega arith) same)
      ∙ sym (keep_last_all (k - 1) _ (omega (arith, length-snoc f k s n (g (turn k s n)))))

  -- Filling the slot behind a full window drops the oldest slot.
  window_slide :
      (f g : ℕ → A) (k s m : ℕ)
      → s < k
      → m + 2 ≡ k
      → ((j : ℕ) → j < k → j ≢ turn k s (suc m) → g j ≡ f j)
      → window g k (turn k s 1) (suc m)
        ≡ keep_last (k - 1) (window f k s (suc m) ++ g (turn k s (suc m)) ∷ [])
  window_slide f g k s m hs hm same =
      window-suc g k (turn k s 1) m (ground arith) (omega arith)
      ∙ ap₂ (λ w i. w ++ g i ∷ [])
          (window_frame f g k (turn k s 1) m m (ground arith) (omega arith) (omega arith)
            (λ j hj ne. same j hj (λ e. ne (e ∙ around))))
          (sym around)
      ∙ sym (
          keep_last_cons (k - 1) (f s) (window f k (turn k s 1) m ++ g (turn k s (suc m)) ∷ [])
            (omega (arith, length-snoc f k (turn k s 1) m (g (turn k s (suc m))))))
    where
      around : turn k s (suc m) ≡ turn k (turn k s 1) m
      around = ground arith

  -- Filling the slot behind a window appends its content to the sequence, of which a ring of `k` slots
  -- keeps the last `k - 1` items.
  pub window_push :
      (f g : ℕ → A) (k s n : ℕ)
      → s < k
      → n < k
      → 1 < k
      → ((j : ℕ) → j < k → j ≢ turn k s n → g j ≡ f j)
      → window g k (next_tail k s n) (next_count k n)
        ≡ keep_last (k - 1) (window f k s n ++ g (turn k s n) ∷ [])
  window_push f g k s n hs hn hk same = elim (dec_lt (n + 1) k) [
    | yes p ↦ rw (lt→ltb (n + 1) k p) (window_grow f g k s n hs p same)
    | no p ↦ rw (le→ltb (n + 1) k (omega arith)) (full n hn (omega arith) same)
  ]
    where
      full :
          (n : ℕ)
          → n < k
          → n + 1 ≡ k
          → ((j : ℕ) → j < k → j ≢ turn k s n → g j ≡ f j)
          → window g k (turn k s 1) n ≡ keep_last (k - 1) (window f k s n ++ g (turn k s n) ∷ [])
      full zero h e same = absurd (omega arith)
      full (suc m) h e same = window_slide f g k s m hs (omega arith) same

  -- Filling a slot of the window sets the item that it stands for.
  pub window-set :
      (f g : ℕ → A) (k s n j : ℕ) {x : A}
      → s < k
      → n < k
      → j < n
      → g (turn k s j) ≡ x
      → ((i : ℕ) → i < k → i ≢ turn k s j → g i ≡ f i)
      → window g k s n ≡ set (window f k s n) j x
  window-set f g k s zero j hs hn hj e same = absurd (omega arith)
  window-set f g k s (suc n) zero hs hn hj e same =
      ap₂ ◌∷◌ (ap g {y = turn k s 0} (ground arith) ∙ e) (
        window_frame f g k (turn k s 1) n (k - 1) (ground arith) (omega arith) (omega arith)
          (λ i hi ne. same i hi (λ q. ne (q ∙ ground arith))))
  window-set f g k s (suc n) (suc j) hs hn hj e same = ap₂ ◌∷◌ (same s hs (ground arith)) (
      window-set f g k (turn k s 1) n j (ground arith) (omega arith) (omega arith)
        (ap g {y = turn k s (suc j)} (ground arith) ∙ e)
        (λ i hi ne. same i hi (λ q. ne (q ∙ ground arith))))
