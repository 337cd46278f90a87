-- ===== src/Console/Laws.antt =====
-- What the user types, what the console sends, and what the manager makes of it.
use nfs_system.Base.{
  ℕ, ◌*◌, ◌<◌, [], ◌∷◌, ◌++◌, append-nil, none, some, Bool, false, if◌then◌else◌, length,
  length-append, ◌≡◌, ◌≢◌, refl, ap, arith, sym, ◌∙◌, All-append, done, ◌>>=◌,
}
use nfs_system.Text.{Bytes, codes, str_eq}
use nfs_system.Text.Search.{Lacks, strchr-append}
use nfs_system.Text.Words.{
  is_space, IsWord, NoSpaces, scan_words, scan_words_fits, scan_words_blank, scan_words_two,
}
use nfs_system.Net.{strip_prefix}
use nfs_system.Net.Laws.{c_string_plain, first_line-append, bounded_short}
use nfs_system.Spec.{max_path}
use nfs_system.Transfer.{max_command_size}
use nfs_system.Manager.{World, Manager, is_empty, handle_add_command}
use nfs_system.Manager.Console.{
  command_size, Handled, dispatch, respond, add_response, handle_command,
}
use nfs_system.Console.{
  strcpy, split_command, validate, process_user_command, full_command, is_newline, is_help, has_two,
  line_of, console_line, sends,
}

-- A word that an argument array holds.
pub record IsArgument (w : Bytes) : Type 0 where
  pub word : IsWord w
  pub no_nul : Lacks 0 w
  pub fits : length w < max_path

NoSpaces-Lacks-newline : (s : Bytes) → NoSpaces s → Lacks 10 s
unfolding is_space
NoSpaces-Lacks-newline [] h = tt
NoSpaces-Lacks-newline (x ∷ s) (hx, h) = (ground arith, NoSpaces-Lacks-newline s h)

-- The two arguments, a blank between them.
abbrev pub pair_text : Bytes → Bytes → Bytes
pair_text s t = s ++ 32 ∷ t

pair_Lacks : (c : ℕ) (s t : Bytes) → c ≢ 32 → Lacks c s → Lacks c t → Lacks c (pair_text s t)
pair_Lacks c s t ne hs ht = All-append (λ x. x ≢ c) s (32 ∷ t) hs ((λ e. ne (sym e)), ht)

add-split :
    (args : Bytes)
    → length args < max_path * 2
    → split_command (codes "add " ++ args) ≡ done (codes "add", args)
unfolding split_command strcpy
add-split args h =
    rw
      (split_command, strchr-append 32 (codes "add") args ((λ e. cc), ((λ e. cc), ((λ e. cc), tt))))
      (ground arith)

add-validate :
    (s t : Bytes)
    → IsArgument s
    → IsArgument t
    → validate (codes "add") (pair_text s t) ≡ done (some (codes "add", pair_text s t))
unfolding validate str_eq has_two
add-validate s t hs ht =
    ap
      (λ m.
        m >>= (λ words. done (if has_two words then some (codes "add", pair_text s t) else none)))
      (ap (λ k. scan_words (max_path ∷ max_path ∷ []) (s ++ 32 ∷ k)) (sym (append-nil t))
        ∙ scan_words_two max_path max_path s t [] hs.word ht.word tt hs.fits ht.fits)

add-words :
    (s t : Bytes)
    → IsArgument s
    → IsArgument t
    → scan_words (command_size ∷ max_path ∷ max_path ∷ []) (codes "add " ++ pair_text s t)
      ≡ done (codes "add" ∷ s ∷ t ∷ [])
unfolding is_space
add-words s t hs ht =
    scan_words_fits command_size (max_path ∷ max_path ∷ []) (codes "add") (32 ∷ pair_text s t)
      ((λ e. cc), (refl, (refl, (refl, tt)))) refl (omega arith)
    ∙ ap (λ m. m >>= (λ ws. done (codes "add" ∷ ws)))
        (scan_words_blank max_path (max_path ∷ []) (pair_text s t)
          ∙ ap (λ k. scan_words (max_path ∷ max_path ∷ []) (s ++ 32 ∷ k)) (sym (append-nil t))
          ∙ scan_words_two max_path max_path s t [] hs.word ht.word tt hs.fits ht.fits)

-- What the console sends for a line, and what the manager does with it.
pub record Reaches (w : World) (m : Manager) (stale line command : Bytes) (last : Bool)
    (h : Handled) : Type 0 where
  pub sent : console_line line ≡ done (sends command last)
  pub handled : handle_command w m stale command ≡ done h

-- The line, past its first bytes.
process-line :
    (line : Bytes)
    → is_newline line ≡ false
    → is_help line ≡ false
    → console_line line ≡ (do r ← process_user_command line; done (line_of r))
unfolding console_line
process-line line n h = rw (console_line, n, h)

process-add :
    (s t : Bytes)
    → IsArgument s
    → IsArgument t
    → process_user_command (codes "add " ++ (pair_text s t ++ 10 ∷ []))
      ≡ done (some (codes "add", pair_text s t))
unfolding process_user_command
process-add s t hs ht =
    ap (λ l. split_command l >>= (λ p. validate p.0 p.1))
      (first_line-append (codes "add " ++ pair_text s t) [] (
        (λ e. cc),
        (
          (λ e. cc),
          (
            (λ e. cc),
            (
              (λ e. cc),
              pair_Lacks 10 s t (λ e. cc) (NoSpaces-Lacks-newline s (hs.word.1))
                  (NoSpaces-Lacks-newline t (ht.word.1)),
            ),
          ),
        ),
      ))
    ∙ ap (λ r. r >>= (λ p. validate p.0 p.1))
        (add-split (pair_text s t) (omega (arith, length-append s (32 ∷ t), hs.fits, ht.fits)))
    ∙ add-validate s t hs ht

pair-full : (s t : Bytes) → is_empty (pair_text s t) ≡ false
unfolding is_empty
pair-full [] t = refl
pair-full (x ∷ s) t = refl

full_add :
    (s t : Bytes)
    → IsArgument s
    → IsArgument t
    → full_command (codes "add") (pair_text s t) ≡ codes "add " ++ pair_text s t
unfolding full_command
full_add s t hs ht =
    rw (full_command, pair-full s t)
      (bounded_short max_command_size (codes "add " ++ pair_text s t)
        (omega (arith, length-append s (32 ∷ t), hs.fits, ht.fits)))

dispatch-add :
    (w : World) (m : Manager) (stale buffer s t : Bytes)
    → dispatch w m stale buffer (codes "add" ∷ s ∷ t ∷ [])
      ≡ respond
          (handle_add_command w m s t).1
          (codes "add")
          (add_response s (handle_add_command w m s t).0)
unfolding dispatch str_eq
dispatch-add w m stale buffer s t = refl

-- The line "add", a source and a target, one blank between each, both words without NUL that fit
-- their arrays: the console sends the command as it was typed, and the manager runs
-- `handle_add_command` on exactly these two words and answers by its result.
pub add-Reaches :
    (w : World) (m : Manager) (stale s t : Bytes)
    → IsArgument s
    → IsArgument t
    → Reaches w m stale
        (codes "add " ++ (pair_text s t ++ 10 ∷ []))
        (codes "add " ++ pair_text s t)
        false
        (respond
          (handle_add_command w m s t).1
          (codes "add")
          (add_response s (handle_add_command w m s t).0))
unfolding handle_command line_of
add-Reaches w m stale s t hs ht = record {
  sent =
      process-line (codes "add " ++ (pair_text s t ++ 10 ∷ [])) (unfold is_newline in refl)
        (unfold is_help strip_prefix in refl)
      ∙ rw (process-add s t hs ht, full_add s t hs ht) (unfold str_eq in refl);
  handled =
      rw
        (
          handle_command,
          c_string_plain (codes "add " ++ pair_text s t) (
            (λ e. cc),
            ((λ e. cc), ((λ e. cc), ((λ e. cc), pair_Lacks 0 s t (λ e. cc) hs.no_nul ht.no_nul))),
          ),
          add-words s t hs ht,
        )
        (ap done (dispatch-add w m stale _ s t));
}
