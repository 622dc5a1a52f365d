-- ===== src/Roots/Reload.antt =====
-- state_load (src/bees-roots.cc) reads back the text that state_to_stream writes.
use bees.Base.{
  ℕ, ◌-◌, ◌^◌, ◌<◌, ◌≡◌, refl, ap, sym, ◌∙◌, Bool, true, false, not, ◌&&◌, Bool-cases, inl, inr,
  List, [], ◌∷◌, ◌++◌, All, All-append, ◌==◌, if◌then◌else◌, then_branch, else_branch, arith,
  Outcome, ok, throw, runtime_error, invalid_argument, ◌>>=◌, ◌>>◌, throw_check,
}
use bees.Crawl.{CrawlState, get_state_begin}
use bees.Roots.{CrawlMap, Roots, insert_root}
use bees.Roots.Text.{Text, codes, space, newline, print, push_word, split, from_hex}
use bees.Roots.Decimal.{IsDigit, print-IsDigit, from_hex-print}
use bees.Roots.Words.{IsWord, split_word, split_last}
use bees.Roots.StateFile.{
  Field, write_fields, state_fields, state_line, write_state, state_to_stream, has_key, read_words,
  reset_transids, max_uint64, loaded_state, parse_line, load_lines, state_load,
}

-- A text that from_hex takes for some number, without spaces: what format_time gives begins with the
-- year.
pub record IsNumber (s : Text) : Type 0 where
  pub no_space : IsWord space s
  pub no_newline : IsWord newline s
  pub value : ℕ
  pub read : from_hex s ≡ ok value

-- No byte is the delimiter.
abbrev lacks : ℕ → Text → Bool
lacks delim [] = true
lacks delim (c ∷ s) = not (c == delim) && lacks delim s

pub lacks-IsWord : (delim : ℕ) (s : Text) → lacks delim s ≡ true → IsWord delim s
lacks-IsWord delim [] h = tt
lacks-IsWord delim (c ∷ s) h = elim (Bool-cases (c == delim)) [
  | inl e ↦ absurd (ground arith)
  | inr e ↦ (e, lacks-IsWord delim s (ap (λ b. not b && lacks delim s) (sym e) ∙ h))
]

-- A key: a word without a space or newline.
abbrev IsKey : Text → Type 0
IsKey k =
    (lacks space k ≡ true)
    × (lacks newline k ≡ true)
    × ((words : List Text) → push_word k words ≡ k ∷ words)

All-IsWord : (delim : ℕ) (s : Text) → delim < 48 → All IsDigit s → IsWord delim s
All-IsWord delim [] h k = tt
All-IsWord delim (c ∷ s) h (k, l) = (ground arith, All-IsWord delim s h l)

-- A word that is read is not empty.
read_some :
    (s : Text) (v : ℕ) (words : List Text) → from_hex s ≡ ok v → push_word s words ≡ s ∷ words
unfolding from_hex
read_some [] v words h = absurd (let e : throw invalid_argument ≡ ok v = h in cc)
read_some (c ∷ s) v words h = refl

-- The words of the fields, before other words.
abbrev words_of : List Field → List Text → List Text
words_of [] words = words
words_of ((key, n) ∷ fs) words = key ∷ (print n ∷ words_of fs words)

-- The fields as they are put into the map.
abbrev put_fields : List Field → List Field → List Field
put_fields [] d = d
put_fields (f ∷ fs) d = put_fields fs (f ∷ d)

-- Keys, and numbers that fit a word.
abbrev Fits : List Field → Type 0
Fits = All (λ f. IsKey f.0 × (f.1 < 2 ^ 64))

-- No key is in the map before, or twice in the line.
abbrev Fresh : List Field → List Field → Type 0
Fresh [] d = Unit {0}
Fresh (f ∷ fs) d = (has_key f.0 d ≡ false) × Fresh fs (f ∷ d)

print-word : (n : ℕ) (words : List Text) → n < 2 ^ 64 → push_word (print n) words ≡ print n ∷ words
print-word n words h = read_some (print n) n words (from_hex-print n h)

split-write_fields :
    (fs : List Field) (rest : Text)
    → Fits fs
    → split space (write_fields fs rest) ≡ words_of fs (split space rest)
split-write_fields [] rest h = refl
split-write_fields ((key, n) ∷ fs) rest (((k, _, some_key), fits), h) =
    let more = write_fields fs rest in
    split_word space key (print n ++ space ∷ more) (lacks-IsWord space key k)
    ∙ (some_key (split space (print n ++ space ∷ more))
        ∙ ap (λ ws. key ∷ ws)
            (split_word space (print n) more
                (All-IsWord space (print n) (omega arith) (print-IsDigit n))
              ∙ (print-word n (split space more) fits
                  ∙ ap (λ ws. print n ∷ ws) (split-write_fields fs rest h))))

read_word :
    (key word : Text) (n : ℕ) (words : List Text) (d : List Field)
    → from_hex word ≡ ok n
    → has_key key d ≡ false
    → read_words d (key ∷ (word ∷ words)) ≡ read_words ((key, n) ∷ d) words
read_word key word n words d e f =
    ap
      (λ o. o >>= λ val.
        throw_check runtime_error (not (has_key key d)) >> read_words ((key, val) ∷ d) words)
      e
    ∙ ap (λ b. throw_check runtime_error (not b) >> read_words ((key, n) ∷ d) words) f

read_fields :
    (fs d : List Field) (words : List Text)
    → Fits fs
    → Fresh fs d
    → read_words d (words_of fs words) ≡ read_words (put_fields fs d) words
read_fields [] d words h k = refl
read_fields ((key, n) ∷ fs) d words ((_, fits), h) (new, k) =
    read_word key (print n) n (words_of fs words) d (from_hex-print n fits) new
    ∙ read_fields fs ((key, n) ∷ d) words h k

-- A state whose numbers fit a word, and whose transaction numbers are not the last possible one.
pub record IsState (format_time : ℕ → Text) (s : CrawlState) : Type 0 where
  pub root_max : s.m_root < 2 ^ 64
  pub objectid_max : s.m_objectid < 2 ^ 64
  pub offset_max : s.m_offset < 2 ^ 64
  pub min_transid_max : s.m_min_transid < 2 ^ 64 - 1
  pub max_transid_max : s.m_max_transid < 2 ^ 64 - 1
  pub started_max : s.m_started < 2 ^ 64
  pub time : IsNumber (format_time s.m_started)

reset_transids_same :
    (s : CrawlState)
    → s.m_min_transid < 2 ^ 64 - 1
    → s.m_max_transid < 2 ^ 64 - 1
    → reset_transids s ≡ s
reset_transids_same s h k =
    let a : (s.m_min_transid == max_uint64) ≡ false = ground arith in
    let b : (s.m_max_transid == max_uint64) ≡ false = ground arith in rw (a, b) refl

state_fields-Fits :
    (format_time : ℕ → Text) (s : CrawlState) → IsState format_time s → Fits (state_fields s)
state_fields-Fits format_time s h =
    let low = h.min_transid_max in
    let high = h.max_transid_max in
    (
      ((refl, refl, λ ws. refl), h.root_max),
      (
        ((refl, refl, λ ws. refl), h.objectid_max),
        (
          ((refl, refl, λ ws. refl), h.offset_max),
          (
            ((refl, refl, λ ws. refl), omega (arith, low)),
            (
              ((refl, refl, λ ws. refl), omega (arith, high)),
              (((refl, refl, λ ws. refl), h.started_max), tt),
            ),
          ),
        ),
      ),
    )

parse_line-state_line :
    (now : ℕ) (format_time : ℕ → Text) (s : CrawlState)
    → IsState format_time s
    → parse_line now (state_line format_time s) ≡ ok s
unfolding parse_line
parse_line-state_line now format_time s h =
    let t = format_time s.m_started in
    let fs = state_fields s in
    let fits = state_fields-Fits format_time s h in
    let last : split space (codes "start_ts" ++ space ∷ t) ≡ codes "start_ts" ∷ (t ∷ []) =
      split_word space (codes "start_ts") t (lacks-IsWord space (codes "start_ts") refl)
      ∙ ap (λ ws. codes "start_ts" ∷ ws)
          (split_last space t h.time.no_space ∙ read_some t h.time.value [] h.time.read) in
    ap (λ ws. read_words [] ws >>= loaded_state now)
      (split-write_fields fs (codes "start_ts" ++ space ∷ t) fits ∙ ap (words_of fs) last)
    ∙ (ap (λ o. o >>= loaded_state now)
          (read_fields fs [] (codes "start_ts" ∷ (t ∷ [])) fits
              (refl, (refl, (refl, (refl, (refl, (refl, tt))))))
            ∙ read_word (codes "start_ts") t h.time.value [] (put_fields fs []) h.time.read refl)
        ∙ ap (λ o. ok o) (reset_transids_same s h.min_transid_max h.max_transid_max))

write_fields-IsWord :
    (fs : List Field) (rest : Text)
    → Fits fs
    → IsWord newline rest
    → IsWord newline (write_fields fs rest)
write_fields-IsWord [] rest h k = k
write_fields-IsWord ((key, n) ∷ fs) rest (((_, a, _), _), h) k =
    let no_newline : ℕ → Type 0 = λ c. (c == newline) ≡ false in
    All-append no_newline key (space ∷ (print n ++ space ∷ write_fields fs rest))
      (lacks-IsWord newline key a)
      (
        refl,
        All-append no_newline (print n) (space ∷ write_fields fs rest)
            (All-IsWord newline (print n) (omega arith) (print-IsDigit n))
            (refl, write_fields-IsWord fs rest h k),
      )

state_line-IsWord :
    (format_time : ℕ → Text) (s : CrawlState)
    → IsState format_time s
    → IsWord newline (state_line format_time s)
state_line-IsWord format_time s h =
    let t = format_time s.m_started in
    write_fields-IsWord (state_fields s) (codes "start_ts" ++ space ∷ t)
      (state_fields-Fits format_time s h)
      (All-append (λ c. (c == newline) ≡ false) (codes "start_ts") (space ∷ t)
        (lacks-IsWord newline (codes "start_ts") refl) (refl, h.time.no_newline))

-- The states that are written.
abbrev pub started_states : CrawlMap → List CrawlState
started_states [] = []
started_states (x ∷ xs) =
    let rest = started_states xs in
    if not ((get_state_begin x.1).m_max_transid == 0) then get_state_begin x.1 ∷ rest else rest

abbrev pub insert_states : List CrawlState → Roots → Outcome Roots
insert_states [] r = ok r
insert_states (s ∷ ss) r = insert_root s r >>= insert_states ss

one_state :
    (now : ℕ) (format_time : ℕ → Text) (s : CrawlState) (rest : Text) (ss : List CrawlState)
    → IsState format_time s
    → ((r : Roots) → load_lines now (split newline rest) r ≡ insert_states ss r)
    → (r : Roots)
    → load_lines now (split newline (write_state format_time s rest)) r
      ≡ insert_states (if not (s.m_max_transid == 0) then s ∷ ss else ss) r
one_state now format_time s rest ss h e r = elim (Bool-cases (not (s.m_max_transid == 0))) [
  | inl f ↦
      let line = state_line format_time s in
      ap (λ text. load_lines now (split newline text) r)
        (then_branch (not (s.m_max_transid == 0)) (line ++ newline ∷ rest) rest f)
      ∙ (ap (λ lines. load_lines now lines r)
            (split_word newline line rest (state_line-IsWord format_time s h))
          ∙ (ap (λ o. o >>= λ t. insert_root t r >>= load_lines now (split newline rest))
                (parse_line-state_line now format_time s h)
              ∙ (ap (λ g. insert_root s r >>= g) (λ i t. e t i)
                  ∙ ap (λ l. insert_states l r)
                      (sym (then_branch (not (s.m_max_transid == 0)) (s ∷ ss) ss f)))))
  | inr f ↦
      ap (λ text. load_lines now (split newline text) r)
        (else_branch (not (s.m_max_transid == 0)) (state_line format_time s ++ newline ∷ rest) rest
          f)
      ∙ (e r
          ∙ ap (λ l. insert_states l r)
              (sym (else_branch (not (s.m_max_transid == 0)) (s ∷ ss) ss f)))
]

empty_lem : (now : ℕ) (r : Roots) → load_lines now (split newline []) r ≡ ok r
unfolding split
empty_lem now r = refl

-- Where the numbers of the states fit a word, no transaction number is the last possible one, and
-- the text of a time is without spaces and begins as a number for from_hex, state_load of the text
-- that state_to_stream writes, byte for byte, does what insert_root of the states does at which
-- the crawls begin, in the order of the map and without those that have not begun.
pub state_load-state_to_stream :
    (now : ℕ) (format_time : ℕ → Text) (xs : CrawlMap) (r : Roots)
    → All (λ x. IsState format_time (get_state_begin x.1)) xs
    → state_load now (state_to_stream format_time xs) r ≡ insert_states (started_states xs) r
unfolding state_load state_to_stream
state_load-state_to_stream now format_time xs r h = go xs h r
  where
    go :
        (xs : CrawlMap)
        → All (λ x. IsState format_time (get_state_begin x.1)) xs
        → (r : Roots)
        → load_lines now (split newline (state_to_stream format_time xs)) r
          ≡ insert_states (started_states xs) r
    go [] h r = empty_lem now r
    go (x ∷ xs) (h, k) r =
        one_state now format_time (get_state_begin x.1) (state_to_stream format_time xs)
          (started_states xs) h (go xs k) r
