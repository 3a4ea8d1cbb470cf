-- ===== src/SlidingWindow/Contents.antt =====
-- src/sliding_window.rs: the window as a queue of bounded length.
use native.Mathlib.Nat.{mod-eq_of_lt, mod-eq-sub-mod, mod-lt, mod-add-mod, add-mod_right}
use babylon_playground_demo.Common.{
  ◌≢◌, sym, if◌then◌else◌, none, ◌⊎◌, inl, inr, ltb, Bool-cases, ℕ, zero, suc, ◌+◌, ◌-◌, ◌%◌, ◌≤◌,
  ◌<◌, ◌≡◌, refl, ap, ◌∙◌, true, false, some, [], ◌∷◌, ◌++◌, ◌==◌, arith,
}
use babylon_playground_demo.SlidingWindow.{
  pop, SlidingWindow, new, push, slot, write, iter, iter_from,
}

-- The head is an index, and there is room for what is counted.
pub record IsValid {A : Type 0} (w : SlidingWindow A) : Type 0 where
  pub room : 0 < w.capacity
  pub head_in : w.head < w.capacity
  pub fits : w.size ≤ w.capacity

-- An index past the end wraps around once.
wrap :
    (h i c : ℕ)
    → h < c
    → i ≤ c
    → ((h + i < c) × ((h + i) % c ≡ h + i)) ⊎ ((c ≤ h + i) × ((h + i) % c ≡ h + i - c))
wrap h i c p q = elim (Bool-cases (ltb (h + i) c)) [
  | inl e ↦ inl (ground arith, mod-eq_of_lt (ground arith))
  | inr e ↦ inr (ground arith, mod-eq-sub-mod (ground arith) ∙ mod-eq_of_lt (ground arith))
]

-- Two indexes of which the later wraps around at most once do not meet.
apart : (h i j c : ℕ) → h < c → i < j → j ≤ c → j < c + i → ((h + i) % c == (h + j) % c) ≡ false
apart h i j c p q r near = ground (arith, wrap h i c p (omega arith), wrap h j c p (omega arith))

here : (a : ℕ) → (a == a) ≡ true
here a = ground arith

-- The head of a window that slides, and an index counted from it.
slid : (h i c : ℕ) → ((h + 1) % c + i) % c ≡ (h + suc i) % c
slid h i c = mod-add-mod (h + 1) c i ∙ ap (λ k. k % c) (omega arith)

module _ {A : Type 0} where
  new-IsValid : (capacity : ℕ) → 0 < capacity → IsValid (new {A = A} capacity)
  unfolding new
  new-IsValid capacity h = ground arith

  push-IsValid : (x : A) (w : SlidingWindow A) → IsValid w → IsValid (push x w).1
  unfolding push
  push-IsValid x w v = ground (arith, mod-lt (w.head + 1) v.room)

  iter_from_same :
      (w u : SlidingWindow A) (i j n : ℕ)
      → ((k : ℕ) → k < n → slot w (i + k) ≡ slot u (j + k))
      → iter_from w i n ≡ iter_from u j n
  unfolding iter_from
  iter_from_same w u i j zero h = refl
  iter_from_same w u i j (suc n) h =
      let first : slot w i ≡ slot u j =
        ap (slot w) (omega arith) ∙ h 0 (omega arith) ∙ ap (slot u) (omega arith) in
      let rest : iter_from w (suc i) n ≡ iter_from u (suc j) n =
        iter_from_same w u (suc i) (suc j) n
          λ k l. ap (slot w) (omega arith) ∙ h (suc k) (omega arith) ∙ ap (slot u) (omega arith) in
      cc

  iter_from_last :
      (w : SlidingWindow A) (i n : ℕ)
      → iter_from w i (suc n) ≡ iter_from w i n ++ slot w (i + n) ∷ []
  unfolding iter_from
  iter_from_last w i zero = ap (λ k. slot w k ∷ []) (omega arith)
  iter_from_last w i (suc n) =
      ap (λ rest. slot w i ∷ rest)
        (iter_from_last w (suc i) n
          ∙ ap (λ k. iter_from w (suc i) n ++ slot w k ∷ []) (omega arith))

  abbrev grown : A → SlidingWindow A → SlidingWindow A
  grown x w = record w {
    buffer = write ((w.head + w.size) % w.capacity) (some x) w.buffer;
    size = w.size + 1;
  }

  grown-iter :
      (x : A) (w : SlidingWindow A)
      → IsValid w
      → w.size < w.capacity
      → iter (grown x w) ≡ iter w ++ some x ∷ []
  unfolding iter
  grown-iter x w v h =
      let u = grown x w in
      let old : iter_from u 0 w.size ≡ iter_from w 0 w.size = iter_from_same u w 0 0 w.size λ k l.
        rw (apart w.head (0 + k) w.size w.capacity v.head_in (omega arith) v.fits (omega arith))
          refl in
      let newest : slot u (0 + w.size) ≡ some x =
        ap (slot u) {y = w.size} (omega arith) ∙ rw (here ((w.head + w.size) % w.capacity)) refl in
      ap (iter_from u 0) {y = suc w.size} (omega arith)
      ∙ iter_from_last u 0 w.size
      ∙ ap (λ xs. xs ++ slot u (0 + w.size) ∷ []) old
      ∙ ap (λ y. iter_from w 0 w.size ++ y ∷ []) newest

  abbrev moved_on : A → SlidingWindow A → SlidingWindow A
  moved_on x w = record w {
    buffer = write ((w.head + w.size) % w.capacity) (some x) w.buffer;
    head = (w.head + 1) % w.capacity;
  }

  moved_on-iter :
      (x : A) (w : SlidingWindow A) (p : ℕ)
      → IsValid w
      → w.size ≡ w.capacity
      → w.size ≡ suc p
      → iter (moved_on x w) ≡ iter_from w 1 p ++ some x ∷ []
  unfolding iter
  moved_on-iter x w p v full e =
      let u = moved_on x w in
      let old : iter_from u 0 p ≡ iter_from w 1 p = iter_from_same u w 0 1 p λ k l.
        rw (slid w.head (0 + k) w.capacity) (
          rw
            (apart w.head (suc (0 + k)) w.size w.capacity v.head_in (omega arith) v.fits
              (omega arith))
            (ap (slot w) (omega arith))) in
      let newest : slot u (0 + p) ≡ some x = rw (slid w.head (0 + p) w.capacity) (
        ap
          (λ k.
            write ((w.head + w.size) % w.capacity) (some x) w.buffer ((w.head + k) % w.capacity))
          {y = w.size} (omega arith)
        ∙ rw (here ((w.head + w.size) % w.capacity)) refl) in
      ap (iter_from u 0) e
      ∙ iter_from_last u 0 p
      ∙ ap (λ xs. xs ++ slot u (0 + p) ∷ []) old
      ∙ ap (λ y. iter_from w 1 p ++ y ∷ []) newest

  slide-iter :
      (x : A) (w : SlidingWindow A) (p : ℕ)
      → IsValid w
      → w.size ≡ w.capacity
      → w.size ≡ suc p
      → w.buffer ((w.head + w.size) % w.capacity) ∷ iter (moved_on x w) ≡ iter w ++ some x ∷ []
  unfolding iter iter_from
  slide-iter x w p v full e =
      let oldest : w.buffer ((w.head + w.size) % w.capacity) ≡ slot w 0 = ap w.buffer (
        ap (λ k. (w.head + k) % w.capacity) full
        ∙ add-mod_right w.head w.capacity
        ∙ ap (λ k. k % w.capacity) (omega arith)
        ∙ refl) in
      let all : iter w ≡ slot w 0 ∷ iter_from w 1 p = ap (iter_from w 0) e in
      let first : w.buffer ((w.head + w.size) % w.capacity) ∷ iter (moved_on x w)
          ≡ slot w 0 ∷ (iter_from w 1 p ++ some x ∷ []) =
        ap (λ y. y ∷ iter (moved_on x w)) oldest
        ∙ ap (λ xs. slot w 0 ∷ xs) (moved_on-iter x w p v full e) in
      first ∙ ap (λ xs. xs ++ some x ∷ []) (sym all)

  shrunk-iter :
      (w : SlidingWindow A) (p : ℕ)
      → IsValid w
      → w.size ≡ suc p
      → iter_from
            (record w { size = p; buffer = write ((w.head + p) % w.capacity) none w.buffer })
            0
            p
          ++ w.buffer ((w.head + p) % w.capacity) ∷ []
        ≡ iter w
  unfolding iter
  shrunk-iter w p v e =
      let u : SlidingWindow A = record w {
        size = p;
        buffer = write ((w.head + p) % w.capacity) none w.buffer;
      } in
      let old : iter_from u 0 p ≡ iter_from w 0 p = iter_from_same u w 0 0 p λ k l.
        rw
          (apart w.head (0 + k) p w.capacity v.head_in (omega arith) (omega (arith, v.fits))
            (omega (arith, v.fits)))
          refl in
      ap (λ xs. xs ++ slot w p ∷ []) old
      ∙ ap (λ k. iter_from w 0 p ++ slot w k ∷ []) {y = 0 + p} (omega arith)
      ∙ sym (iter_from_last w 0 p)
      ∙ sym (ap (iter_from w 0) e)

  -- To push onto a valid window appends the item to what `iter` yields; where the window was full,
  -- the oldest element leaves it in return, and `push` returns that.
  pub push-iter :
      (x : A) (w : SlidingWindow A)
      → IsValid w
      → (if ltb w.size w.capacity then iter (push x w).1 else (push x w).0 ∷ iter (push x w).1)
        ≡ iter w ++ some x ∷ []
  unfolding push
  push-iter x w v = elim (Bool-cases (ltb w.size w.capacity)) [
    | inl e ↦ rw e (grown-iter x w v (ground arith))
    | inr e ↦ rw e (slide-iter x w (w.size - 1) v (ground (arith, v.fits)) (ground (arith, v.room)))
  ]

  -- To pop takes the newest element off the end of what `iter` yields; an empty window stays empty.
  pub pop-iter :
      (w : SlidingWindow A)
      → IsValid w
      → (if w.size == 0 then iter (pop w).1 else iter (pop w).1 ++ (pop w).0 ∷ []) ≡ iter w
  unfolding pop iter
  pop-iter w v =
      let regroup : w.size ≢ 0 → w.head + w.size - 1 ≡ w.head + (w.size - 1) = λ h. omega arith in
      elim (Bool-cases (w.size == 0)) [
        | inl e ↦ rw e refl
        | inr e ↦ rw (e, regroup (λ z. ground arith)) (shrunk-iter w (w.size - 1) v (ground arith))
      ]

  pub pop-IsValid : (w : SlidingWindow A) → IsValid w → IsValid (pop w).1
  unfolding pop
  pop-IsValid w v = ground arith
