-- ===== src/Text/Fits.antt =====
-- The length of the words that `sscanf` stores.
use nfs_system.Base.{
  ℕ, ◌+◌, ◌≤◌, ◌<◌, List, [], ◌∷◌, ◌≡◌, refl, arith, Bool-cases, inl, inr, All, length, none, some,
  done, lt→ltb, ap,
}
use nfs_system.Text.Words.{is_space, skip_spaces, take_word, scan_word, scan_words, NoSpaces}

length-skip_spaces : (s : List ℕ) → length (skip_spaces s) ≤ length s
unfolding skip_spaces
length-skip_spaces [] = omega arith
length-skip_spaces (x ∷ s) = ground (arith, length-skip_spaces s)

take_word_lem :
    (s : List ℕ)
    → NoSpaces (take_word s).0 × (length (take_word s).0 + length (take_word s).1 ≡ length s)
unfolding take_word
take_word_lem [] = (tt, omega arith)
take_word_lem (x ∷ s) = elim (Bool-cases (is_space x)) [
  | inl space ↦ rw space (tt, omega arith)
  | inr other ↦ rw other ((other, (take_word_lem s).0), omega (arith, (take_word_lem s).1))
]

-- What one `%s` finds.
pub data Scanned (s : List ℕ) : Type 0 where
  finished : scan_word s ≡ none → Scanned s
  stored :
      (w r : List ℕ)
      → scan_word s ≡ some (w, r)
      → NoSpaces w
      → length w + length r ≤ length s
      → Scanned s

pub scan_word-Scanned : (s : List ℕ) → Scanned s
unfolding scan_word
scan_word-Scanned s = go (skip_spaces s) refl
  where
    go : (t : List ℕ) → skip_spaces s ≡ t → Scanned s
    go [] e = finished (rw (scan_word, e))
    go (x ∷ t) e =
        stored (take_word (x ∷ t)).0 (take_word (x ∷ t)).1 (rw (scan_word, e))
          (take_word_lem (x ∷ t)).0
          (omega (arith, take_word_lem (x ∷ t), length-skip_spaces s, ap length e))

-- Arrays longer than the text hold every word of it.
pub scan_words_safe :
    (sizes s : List ℕ)
    → All (λ n. length s < n) sizes
    → (ws : List (List ℕ)) × (scan_words sizes s ≡ done ws)
unfolding scan_words
scan_words_safe [] s h = ([], refl)
scan_words_safe (n ∷ sizes) s (hn, h) = elim (scan_word-Scanned s) [
  | finished e ↦ ([], rw (scan_words, e))
  | stored w r e plain fits ↦
      let (ws, p) = scan_words_safe sizes r (shorter r sizes (omega arith) h) in
      (w ∷ ws, rw (scan_words, e, lt→ltb (length w) n (omega arith), p))
]
  where
    shorter :
        (r : List ℕ) (sizes : List ℕ)
        → length r ≤ length s
        → All (λ n. length s < n) sizes
        → All (λ n. length r < n) sizes
    shorter r [] le h = tt
    shorter r (n ∷ sizes) le (hn, h) = (omega arith, shorter r sizes le h)
