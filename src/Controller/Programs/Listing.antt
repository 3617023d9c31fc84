-- ===== src/Controller/Programs/Listing.antt =====
-- What the store of programs promises (firmware/program.cpp): it is a list of at most 16 programs.
use indigo_open_sprinkler_pl.Common.{
  ℕ, zero, suc, ◌≤◌, ◌<◌, ◌≡◌, ◌≢◌, refl, ap, arith, List, [], ◌∷◌, ◌++◌, length,
}

module _ {ℓ} {A : Type ℓ} where
  -- The first n entries of an array.
  abbrev pub tabulate : ℕ → (ℕ → A) → List A
  tabulate zero f = []
  tabulate (suc n) f = f 0 ∷ tabulate n (λ i. f (suc i))

  -- Entry i is replaced; past the end nothing is.
  abbrev pub set : List A → ℕ → A → List A
  set [] i v = []
  set (x ∷ xs) zero v = v ∷ xs
  set (x ∷ xs) (suc i) v = x ∷ set xs i v

  -- Entry i is taken out.
  abbrev pub erase_at : List A → ℕ → List A
  erase_at [] i = []
  erase_at (x ∷ xs) zero = xs
  erase_at (x ∷ xs) (suc i) = x ∷ erase_at xs i

  -- Entries i and i + 1 change places.
  abbrev pub swap_at : List A → ℕ → List A
  swap_at [] i = []
  swap_at (x ∷ []) i = x ∷ []
  swap_at (x ∷ y ∷ ys) zero = y ∷ x ∷ ys
  swap_at (x ∷ y ∷ ys) (suc i) = x ∷ swap_at (y ∷ ys) i

  pub tabulate-ext :
      (n : ℕ) (f g : ℕ → A) → ((i : ℕ) → i < n → f i ≡ g i) → tabulate n f ≡ tabulate n g
  tabulate-ext zero f g h = refl
  tabulate-ext (suc n) f g h = rw (
    h 0 (omega arith),
    tabulate-ext n (λ i. f (suc i)) (λ i. g (suc i)) (λ i lt. h (suc i) (omega arith)),
  )

  pub length-tabulate : (n : ℕ) (f : ℕ → A) → length (tabulate n f) ≡ n
  length-tabulate zero f = refl
  length-tabulate (suc n) f = ap suc (length-tabulate n (λ i. f (suc i)))

  pub tabulate-append :
      (n : ℕ) (f g : ℕ → A) (v : A)
      → ((i : ℕ) → i < n → g i ≡ f i)
      → g n ≡ v
      → tabulate (suc n) g ≡ tabulate n f ++ v ∷ []
  tabulate-append zero f g v h e = rw e
  tabulate-append (suc n) f g v h e = rw (h 0 (omega arith)) (
      ap (λ xs. f 0 ∷ xs)
        (tabulate-append n (λ i. f (suc i)) (λ i. g (suc i)) v (λ i lt. h (suc i) (omega arith)) e))

  pub tabulate-set :
      (n i : ℕ) (f g : ℕ → A)
      → ((j : ℕ) → j < n → j ≢ i → g j ≡ f j)
      → tabulate n g ≡ set (tabulate n f) i (g i)
  tabulate-set zero i f g h = refl
  tabulate-set (suc n) zero f g h =
      ap (λ xs. g 0 ∷ xs)
        (tabulate-ext n (λ j. g (suc j)) (λ j. f (suc j))
          (λ j lt. h (suc j) (omega arith) (omega arith)))
  tabulate-set (suc n) (suc i) f g h = rw (h 0 (omega arith) (omega arith)) (
      ap (λ xs. f 0 ∷ xs)
        (tabulate-set n i (λ j. f (suc j)) (λ j. g (suc j))
          (λ j lt ne. h (suc j) (omega arith) (λ e. ne (omega (arith, e))))))

  pub tabulate-erase :
      (n i : ℕ) (f g : ℕ → A)
      → i ≤ n
      → ((j : ℕ) → j < i → g j ≡ f j)
      → ((j : ℕ) → i ≤ j → j < n → g j ≡ f (suc j))
      → tabulate n g ≡ erase_at (tabulate (suc n) f) i
  tabulate-erase n zero f g le h k =
      tabulate-ext n g (λ j. f (suc j)) (λ j lt. k j (omega arith) lt)
  tabulate-erase zero (suc i) f g le h k = absurd (omega arith)
  tabulate-erase (suc n) (suc i) f g le h k = rw (h 0 (omega arith)) (
      ap (λ xs. f 0 ∷ xs)
        (tabulate-erase n i (λ j. f (suc j)) (λ j. g (suc j)) (omega arith)
          (λ j lt. h (suc j) (omega arith)) (λ j ge lt. k (suc j) (omega arith) (omega arith))))

  pub tabulate-swap :
      (n i : ℕ) (f g : ℕ → A)
      → suc i < n
      → g i ≡ f (suc i)
      → g (suc i) ≡ f i
      → ((j : ℕ) → j < n → j ≢ i → j ≢ suc i → g j ≡ f j)
      → tabulate n g ≡ swap_at (tabulate n f) i
  tabulate-swap zero i f g lt a b h = absurd (omega arith)
  tabulate-swap (suc zero) i f g lt a b h = absurd (omega arith)
  tabulate-swap (suc (suc n)) zero f g lt a b h =
      rw (a, b)
        (ap (λ xs. f 1 ∷ f 0 ∷ xs)
          (tabulate-ext n (λ j. g (suc (suc j))) (λ j. f (suc (suc j)))
            (λ j k. h (suc (suc j)) (omega arith) (omega arith) (omega arith))))
  tabulate-swap (suc (suc n)) (suc i) f g lt a b h =
      rw (h 0 (omega arith) (omega arith) (omega arith)) (
        ap (λ xs. f 0 ∷ xs)
          (tabulate-swap (suc n) i (λ j. f (suc j)) (λ j. g (suc j)) (omega arith) a b
            (λ j k p q.
              h (suc j) (omega arith) (λ e. p (omega (arith, e))) (λ e. q (omega (arith, e))))))
