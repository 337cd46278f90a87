-- ===== src/Manager/Arguments/Accepted.antt =====
-- What `parse_arguments` accepts.
use nfs_system.Base.{
  ℕ, zero, suc, ◌<◌, ◌^◌, ◌-◌, List, [], ◌∷◌, none, some, true, false, ℤ, pos, negsuc, is_positive,
  is_negative, int_eq, Option-cases, inl, inr, subst, ◌≡◌, ◌≢◌, refl, ap, arith, sym, ◌∙◌,
  append-nil,
}
use nfs_system.Text.{Bytes, codes, str_eq}
use nfs_system.Text.Number.{atoi}
use nfs_system.Text.Decimal.{print_nat}
use nfs_system.Text.RoundTrip.{atoi-print_nat}
use nfs_system.Manager.Arguments.{
  Settings, default_workers, default_settings, set_option, set_options, is_set, check_settings,
  parse_arguments,
}

-- The settings of a manager that is to start: an option that is given twice has its last value.
pub record IsUsable (m : Settings) : Type 0 where
  pub logs : m.logfile_path ≢ none
  pub configures : m.config_file_path ≢ none
  pub workers : is_positive m.worker_limit ≡ true
  pub port_positive : is_positive m.port ≡ true
  pub buffer_positive : is_positive m.buffer_size ≡ true

record IsSane (m : Settings) : Type 0 where
  workers : is_positive m.worker_limit ≡ true
  port_kept : is_negative m.port ≡ false
  buffer_kept : is_negative m.buffer_size ≡ false

not_negative : (z : ℤ) → is_positive z ≡ true → is_negative z ≡ false
not_negative (pos n) h = refl
not_negative (negsuc n) h = absurd (ground arith)

positive : (z : ℤ) → is_negative z ≡ false → int_eq z (pos 0) ≡ false → is_positive z ≡ true
positive (pos zero) h k = absurd (ground arith)
positive (pos (suc n)) h k = refl
positive (negsuc n) h k = absurd (ground arith)

set_option-IsSane :
    (m n : Settings) (option value : Bytes)
    → IsSane m
    → set_option m option value ≡ some n
    → IsSane n
unfolding set_option
set_option-IsSane m n option value h e =
    ground (arith, h.workers, h.port_kept, h.buffer_kept, not_negative (atoi value))

set_options-IsSane :
    (m n : Settings) (arguments : List Bytes)
    → IsSane m
    → set_options m arguments ≡ some n
    → IsSane n
unfolding set_options
set_options-IsSane m n [] h e = subst IsSane (ground arith) h
set_options-IsSane m n (option ∷ []) h e = absurd (ground arith)
set_options-IsSane m n (option ∷ value ∷ rest) h e =
    elim (Option-cases (set_option m option value)) [
      | inl q ↦ absurd (ground arith)
      | inr (m1, q) ↦
          set_options-IsSane m1 n rest (set_option-IsSane m m1 option value h q) (ground arith)
    ]

default-IsSane : IsSane default_settings
unfolding default_settings
default-IsSane = record { workers = refl; port_kept = refl; buffer_kept = refl }

check-IsUsable : (m n : Settings) → IsSane m → check_settings m ≡ some n → IsUsable n
unfolding check_settings is_set
check-IsUsable m n h e =
    ground (arith, positive m.port h.port_kept, positive m.buffer_size h.buffer_kept, h.workers)

-- Whatever the arguments are, `parse_arguments` succeeds only with a log file, a configuration file
-- and a positive number of workers, port and size of the queue.
pub parse_arguments-IsUsable :
    (arguments : List Bytes) (m : Settings) → parse_arguments arguments ≡ some m → IsUsable m
unfolding parse_arguments
parse_arguments-IsUsable arguments m e =
    elim (Option-cases (set_options default_settings arguments)) [
      | inl q ↦ absurd (ground arith)
      | inr (n, q) ↦
          check-IsUsable n m (set_options-IsSane default_settings n arguments default-IsSane q)
            (ground arith)
    ]

-- The arguments in the order of the usage message.
abbrev pub usage : Bytes → Bytes → ℕ → ℕ → ℕ → List Bytes
usage logfile config workers port size =
    codes "-l"
    ∷ logfile
    ∷ codes "-c"
    ∷ config
    ∷ codes "-n"
    ∷ print_nat workers
    ∷ codes "-p"
    ∷ print_nat port
    ∷ codes "-b"
    ∷ print_nat size
    ∷ []

read_number : (n : ℕ) → n < 2 ^ 31 → atoi (print_nat n) ≡ pos n
read_number n h = ap atoi (sym (append-nil (print_nat n))) ∙ atoi-print_nat n [] h tt

no_more : (m : Settings) → set_options m [] ≡ some m
unfolding set_options
no_more m = refl

abbrev settings : Bytes → Bytes → ℤ → ℤ → ℤ → Settings
settings logfile config workers port size = record {
  logfile_path = some logfile;
  config_file_path = some config;
  worker_limit = workers;
  port = port;
  buffer_size = size;
}

one_option :
    (m n : Settings) (option value : Bytes) (rest : List Bytes)
    → set_option m option value ≡ some n
    → set_options m (option ∷ value ∷ rest) ≡ set_options n rest
unfolding set_options
one_option m n option value rest e = rw (set_options, e)

option_n :
    (m : Settings) (n : ℕ)
    → suc n < 2 ^ 31
    → set_option m (codes "-n") (print_nat (suc n)) ≡ some (record m { worker_limit = pos (suc n) })
unfolding set_option str_eq
option_n m n h = rw (set_option, read_number (suc n) h)

option_p :
    (m : Settings) (n : ℕ)
    → suc n < 2 ^ 31
    → set_option m (codes "-p") (print_nat (suc n)) ≡ some (record m { port = pos (suc n) })
unfolding set_option str_eq
option_p m n h = rw (set_option, read_number (suc n) h)

option_b :
    (m : Settings) (n : ℕ)
    → suc n < 2 ^ 31
    → set_option m (codes "-b") (print_nat (suc n)) ≡ some (record m { buffer_size = pos (suc n) })
unfolding set_option str_eq
option_b m n h = rw (set_option, read_number (suc n) h)

-- With the arguments of the usage message, whose numbers are printed in decimal and lie between 1
-- and 2 ^ 31 - 1, `parse_arguments` sets each field to its argument.
pub parse_arguments-usage :
    (logfile config : Bytes) (workers port size : ℕ)
    → workers < 2 ^ 31 - 1
    → port < 2 ^ 31 - 1
    → size < 2 ^ 31 - 1
    → parse_arguments (usage logfile config (suc workers) (suc port) (suc size))
      ≡ some (record {
        logfile_path = some logfile;
        config_file_path = some config;
        worker_limit = pos (suc workers);
        port = pos (suc port);
        buffer_size = pos (suc size);
      })
unfolding parse_arguments set_option check_settings is_set str_eq default_settings
parse_arguments-usage logfile config workers port size hw hp hs =
    rw
      (
        parse_arguments,
        one_option default_settings _ (codes "-l") logfile _ refl
            ∙ one_option (record default_settings { logfile_path = some logfile }) _ (codes "-c")
                config _ refl
            ∙ one_option (settings logfile config (pos default_workers) (pos 0) (pos 0))
                (settings logfile config (pos (suc workers)) (pos 0) (pos 0)) (codes "-n")
                (print_nat (suc workers)) _
                (option_n (settings logfile config (pos default_workers) (pos 0) (pos 0)) workers
                  (omega arith))
            ∙ one_option (settings logfile config (pos (suc workers)) (pos 0) (pos 0))
                (settings logfile config (pos (suc workers)) (pos (suc port)) (pos 0)) (codes "-p")
                (print_nat (suc port)) _
                (option_p (settings logfile config (pos (suc workers)) (pos 0) (pos 0)) port
                  (omega arith))
            ∙ one_option (settings logfile config (pos (suc workers)) (pos (suc port)) (pos 0))
                (settings logfile config (pos (suc workers)) (pos (suc port)) (pos (suc size)))
                (codes "-b") (print_nat (suc size)) []
                (option_b (settings logfile config (pos (suc workers)) (pos (suc port)) (pos 0))
                  size (omega arith))
            ∙ no_more _,
      )
      (ground arith)
