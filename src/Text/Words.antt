-- ===== src/Text/Words.antt =====
-- The conversions `%s` of `sscanf`, into arrays of a given size.
use nfs_system.Base.{
  ℕ, List, [], ◌∷◌, ◌++◌, Bool, true, false, ◌&&◌, ◌||◌, ltb, leb, ◌==◌, if◌then◌else◌, ◌≡◌, ◌≢◌,
  ◌≤◌, ◌<◌, refl, ap, All, length, Option, none, some, Exec, done, overrun, ◌>>=◌, lt→ltb,
  le→ltb_false, ◌∙◌,
}

-- `isspace`
unfoldable pub is_space : ℕ → Bool
is_space c = c == 32 || leb 9 c && leb c 13

unfoldable pub skip_spaces : List ℕ → List ℕ
skip_spaces [] = []
skip_spaces (x ∷ s) = if is_space x then skip_spaces s else x ∷ s

-- The longest run of bytes that are no white space, and what follows it.
unfoldable pub take_word : List ℕ → List ℕ × List ℕ
take_word [] = ([], [])
take_word (x ∷ s) =
    let rest = take_word s in if is_space x then ([], x ∷ s) else (x ∷ rest.0, rest.1)

-- One `%s`: `none` at the end of the input.
unfoldable pub scan_word : List ℕ → Option (List ℕ × List ℕ)
scan_word s = elim (skip_spaces s) [ [] ↦ none | x ∷ r ↦ some (take_word (x ∷ r)) ]

-- The words that `sscanf` stores by one `%s` for each array, whose sizes are given. A word takes a
-- byte more, for the NUL; `%s` has no width here, so a word that is too long is written all the same.
unfoldable pub scan_words : List ℕ → List ℕ → Exec (List (List ℕ))
scan_words [] s = done []
scan_words (n ∷ sizes) s = elim (scan_word s) [
  | none ↦ done []
  | some (w, r) ↦ if ltb (length w) n then (do ws ← scan_words sizes r; done (w ∷ ws)) else overrun
]

abbrev pub NoSpaces : List ℕ → Type 0
NoSpaces = All (λ c. is_space c ≡ false)

abbrev pub IsWord : List ℕ → Type 0
IsWord w = (w ≢ []) × NoSpaces w

pub skip_spaces_word : (w r : List ℕ) → IsWord w → skip_spaces (w ++ r) ≡ w ++ r
unfolding skip_spaces
skip_spaces_word [] r (ne, h) = absurd (ne refl)
skip_spaces_word (x ∷ w) r (ne, (hx, h)) = rw hx

-- A word ends at the end of the text or at a space.
abbrev pub StartsWithSpace : List ℕ → Type 0
StartsWithSpace [] = Unit
StartsWithSpace (x ∷ s) = is_space x ≡ true

pub take_word-append : (w r : List ℕ) → NoSpaces w → StartsWithSpace r → take_word (w ++ r) ≡ (w, r)
unfolding take_word
take_word-append [] [] h s = refl
take_word-append [] (x ∷ r) h s = rw s
take_word-append (x ∷ w) r (hx, h) s = rw (hx, take_word-append w r h s)

pub scan_word-append :
    (w r : List ℕ) → IsWord w → StartsWithSpace r → scan_word (w ++ r) ≡ some (w, r)
unfolding scan_word
scan_word-append [] r (ne, h) s = absurd (ne refl)
scan_word-append (x ∷ w) r h s =
    rw (scan_word, skip_spaces_word (x ∷ w) r h) (ap some (take_word-append (x ∷ w) r h.1 s))

-- White space before a word is skipped.
pub scan_word_space : (x : ℕ) (s : List ℕ) → is_space x ≡ true → scan_word (x ∷ s) ≡ scan_word s
unfolding scan_word skip_spaces
scan_word_space x s h = rw (scan_word, h)

-- Nothing more is stored from white space alone.
abbrev pub AllSpaces : List ℕ → Type 0
AllSpaces = All (λ c. is_space c ≡ true)

pub scan_word_blank : (s : List ℕ) → AllSpaces s → scan_word s ≡ none
unfolding scan_word skip_spaces
scan_word_blank [] h = refl
scan_word_blank (x ∷ s) (hx, h) = rw (scan_word, hx) (scan_word_blank s h)

pub scan_words_fits :
    (n : ℕ) (sizes w r : List ℕ)
    → IsWord w
    → StartsWithSpace r
    → length w < n
    → scan_words (n ∷ sizes) (w ++ r) ≡ (do ws ← scan_words sizes r; done (w ∷ ws))
unfolding scan_words
scan_words_fits n sizes w r h s fits = rw (scan_words, scan_word-append w r h s, lt→ltb _ _ fits)

-- A word that leaves no room for its NUL is written past the end of the array.
pub scan_words_overrun :
    (n : ℕ) (sizes w r : List ℕ)
    → IsWord w
    → StartsWithSpace r
    → n ≤ length w
    → scan_words (n ∷ sizes) (w ++ r) ≡ overrun
unfolding scan_words
scan_words_overrun n sizes w r h s long =
    rw (scan_words, scan_word-append w r h s, le→ltb_false _ _ long)

-- A blank before the words is skipped.
pub scan_words_blank :
    (n : ℕ) (sizes s : List ℕ) → scan_words (n ∷ sizes) (32 ∷ s) ≡ scan_words (n ∷ sizes) s
unfolding scan_words is_space
scan_words_blank n sizes s = rw (scan_words, scan_word_space 32 s refl)

pub scan_words_last :
    (n : ℕ) (w r : List ℕ)
    → IsWord w
    → StartsWithSpace r
    → length w < n
    → scan_words (n ∷ []) (w ++ r) ≡ done (w ∷ [])
scan_words_last n w r h s fits = scan_words_fits n [] w r h s fits ∙ unfold scan_words in refl

-- Two words with a blank between them, into two arrays.
pub scan_words_two :
    (n m : ℕ) (v w r : List ℕ)
    → IsWord v
    → IsWord w
    → StartsWithSpace r
    → length v < n
    → length w < m
    → scan_words (n ∷ m ∷ []) (v ++ 32 ∷ (w ++ r)) ≡ done (v ∷ w ∷ [])
unfolding is_space
scan_words_two n m v w r hv hw s fv fw =
    scan_words_fits n (m ∷ []) v (32 ∷ (w ++ r)) hv refl fv
    ∙ rw (scan_words_blank m [] (w ++ r), scan_words_last m w r hw s fw)
