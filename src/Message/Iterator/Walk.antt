-- ===== src/Message/Iterator/Walk.antt =====
-- lib/iterator/impl.go: which entries a client sees, and in which order.
use aerc.Prelude.{
  backwards, backwards-snoc, ℕ, zero, suc, ◌+◌, ◌≤◌, ◌<◌, ◌≡◌, refl, sym, ap, ◌∙◌, Bool, true,
  false, not, List, [], ◌∷◌, some, length, take, drop, take-suc, get_elem?, get_elem?-within,
  drop-beyond, take-length, arith, ltb, done, Bool-cases, inl, inr,
}
use aerc.Prelude.Int.{ℤ, pos, sub_ℕ, sub_ℕ-suc_one, ◌+ℤ◌, ◌-ℤ◌, ltb_ℤ}
use aerc.Message.Iterator.{Iterator, new_iterator, next, value, walk}

module _ {A : Type 0} where
  drop-cons :
      (xs : List A) (i : ℕ) (x : A) → get_elem? xs i ≡ some x → drop i xs ≡ x ∷ drop (suc i) xs
  drop-cons [] i x h = absurd (ground arith)
  drop-cons (y ∷ xs) zero x h = ground arith
  drop-cons (y ∷ xs) (suc i) x h = drop-cons xs i x h

  abbrev pub at : Bool → List A → ℤ → Iterator A
  at r xs i = record { reversed = r; entries = xs; position = i }

  next_up :
      (xs : List A) (k : ℕ)
      → next (at true xs (sub_ℕ k 1)) ≡ (ltb k (length xs), at true xs (pos k))
  unfolding next ◌+ℤ◌
  next_up xs k =
      let e : sub_ℕ k 1 +ℤ pos 1 ≡ pos k = ground arith in
      let t : ltb_ℤ (pos k) (pos (length xs)) ≡ ltb k (length xs) = ground arith in
      ap (λ i. (ltb_ℤ i (pos (length xs)), at true xs i)) e ∙ ap (λ b. (b, at true xs (pos k))) t

  next_down : (xs : List A) (k : ℕ) → next (at false xs (pos (suc k))) ≡ (true, at false xs (pos k))
  unfolding next ◌-ℤ◌
  next_down xs k =
      let e : pos (suc k) -ℤ pos 1 ≡ pos k = ground arith in
      let t : not (ltb_ℤ (pos k) (pos 0)) ≡ true = ground arith in
      ap (λ i. (not (ltb_ℤ i (pos 0)), at false xs i)) e ∙ ap (λ b. (b, at false xs (pos k))) t

  next_down_end : (xs : List A) → (next (at false xs (pos 0))).0 ≡ false
  unfolding next ◌-ℤ◌
  next_down_end xs = ground arith

  -- One round of the loop of a client.
  walk_more :
      (fuel : ℕ) (it it' : Iterator A) (x : A) (xs : List A)
      → next it ≡ (true, it')
      → value it' ≡ done x
      → walk fuel it' ≡ done xs
      → walk (suc fuel) it ≡ done (x ∷ xs)
  unfolding walk
  walk_more fuel it it' x xs n v w =
      ground (arith, ap (λ p. p.0) n, ap (λ p. value p.1) n, ap (λ p. walk fuel p.1) n)

  walk_end : (fuel : ℕ) (it : Iterator A) → (next it).0 ≡ false → walk fuel it ≡ done []
  unfolding walk
  walk_end zero it n = refl
  walk_end (suc fuel) it n = ground arith

  value-at :
      (r : Bool) (xs : List A) (k : ℕ) (x : A)
      → get_elem? xs k ≡ some x
      → value (at r xs (pos k)) ≡ done x
  unfolding value
  value-at r xs k x h = ground arith

  walk_up :
      (xs : List A) (fuel k : ℕ)
      → length xs < k + fuel
      → walk fuel (at true xs (sub_ℕ k 1)) ≡ done (drop k xs)
  walk_up xs zero k h =
      walk_end zero (at true xs (sub_ℕ k 1)) (ap (λ p. p.0) (next_up xs k) ∙ ground arith)
      ∙ ap done (sym (drop-beyond xs k (omega arith)))
  walk_up xs (suc fuel) k h = elim (Bool-cases (ltb k (length xs))) [
    | inl more ↦
        let (x, e) = get_elem?-within xs k (ground arith) in
        walk_more fuel (at true xs (sub_ℕ k 1)) (at true xs (pos k)) x (drop (suc k) xs)
          (next_up xs k ∙ ap (λ b. (b, at true xs (pos k))) more) (value-at true xs k x e)
          (ap (λ i. walk fuel (at true xs i)) (sym (sub_ℕ-suc_one k))
            ∙ walk_up xs fuel (suc k) (omega arith))
        ∙ ap done (sym (drop-cons xs k x e))
    | inr stop ↦
        walk_end (suc fuel) (at true xs (sub_ℕ k 1)) (ap (λ p. p.0) (next_up xs k) ∙ stop)
        ∙ ap done (sym (drop-beyond xs k (ground arith)))
  ]

  walk_down :
      (xs : List A) (fuel k : ℕ)
      → k ≤ length xs
      → k < fuel
      → walk fuel (at false xs (pos k)) ≡ done (backwards (take k xs))
  walk_down xs zero k h f = absurd (omega arith)
  walk_down xs (suc fuel) zero h f = walk_end (suc fuel) (at false xs (pos 0)) (next_down_end xs)
  walk_down xs (suc fuel) (suc k) h f =
      let (x, e) = get_elem?-within xs k (omega arith) in
      walk_more fuel (at false xs (pos (suc k))) (at false xs (pos k)) x (backwards (take k xs))
        (next_down xs k) (value-at false xs k x e) (walk_down xs fuel k (omega arith) (omega arith))
      ∙ ap done (sym (ap backwards (take-suc xs k x e) ∙ backwards-snoc (take k xs) x))

  -- The loop of a client over a new iterator ends within one more round than there are entries, without
  -- a panic: it sees the entries in their order if the iterator is reversed, and else from the last to
  -- the first.
  pub walk-new_iterator :
      (xs : List A)
      → (walk (suc (length xs)) (new_iterator false xs) ≡ done (backwards xs))
        × (walk (suc (length xs)) (new_iterator true xs) ≡ done xs)
  unfolding new_iterator
  walk-new_iterator xs = (
    walk_down xs (suc (length xs)) (length xs) (omega arith) (omega arith)
        ∙ ap done (ap backwards (take-length xs)),
    walk_up xs (suc (length xs)) 0 (omega arith),
  )
