-- ===== src/Roots/StateFile.antt =====
-- The file of crawl states (src/bees-roots.cc): what state_to_stream writes and state_load reads.
use bees.Base.{
  ℕ, ◌-◌, ◌^◌, Bool, true, false, not, ◌&&◌, ◌||◌, List, [], ◌∷◌, ◌++◌, ◌==◌, if◌then◌else◌,
  Outcome, ok, throw, runtime_error, out_of_range, ◌>>=◌, ◌>>◌, throw_check,
}
use bees.Crawl.{CrawlState, get_state_begin}
use bees.Roots.{CrawlMap, Roots, insert_root}
use bees.Roots.Text.{Text, codes, space, newline, print, split, from_hex}

-- A key and its number.
abbrev pub Field : Type 0
Field = Text × ℕ

-- ofs << "key " << number << " ", before the rest of the line.
abbrev pub write_fields : List Field → Text → Text
write_fields [] rest = rest
write_fields ((key, n) ∷ fs) rest = key ++ space ∷ (print n ++ space ∷ write_fields fs rest)

abbrev pub state_fields : CrawlState → List Field
state_fields s =
    (codes "root", s.m_root)
    ∷ (codes "objectid", s.m_objectid)
    ∷ (codes "offset", s.m_offset)
    ∷ (codes "min_transid", s.m_min_transid)
    ∷ (codes "max_transid", s.m_max_transid)
    ∷ (codes "started", s.m_started)
    ∷ []

-- format_time is the standard library's text of a time. The line has no newline yet.
abbrev pub state_line : (ℕ → Text) → CrawlState → Text
state_line format_time s =
    write_fields (state_fields s) (codes "start_ts" ++ space ∷ format_time s.m_started)

abbrev pub write_state : (ℕ → Text) → CrawlState → Text → Text
write_state format_time s rest =
    if not (s.m_max_transid == 0) then state_line format_time s ++ newline ∷ rest else rest

unfoldable pub state_to_stream : (ℕ → Text) → CrawlMap → Text
state_to_stream format_time [] = []
state_to_stream format_time (x ∷ xs) =
    write_state format_time (get_state_begin x.1) (state_to_stream format_time xs)

-- map<string, uint64_t>: the newest entry first; no key is put in twice.
abbrev pub same_text : Text → Text → Bool
same_text [] [] = true
same_text [] (c ∷ s) = false
same_text (c ∷ s) [] = false
same_text (c ∷ s) (d ∷ t) = (c == d) && same_text s t

abbrev pub has_key : Text → List Field → Bool
has_key k [] = false
has_key k (x ∷ xs) = same_text k x.0 || has_key k xs

abbrev pub at_key : Text → List Field → Outcome ℕ
at_key k [] = throw out_of_range
at_key k (x ∷ xs) = let rest = at_key k xs in if same_text k x.0 then ok x.1 else rest

-- The loop over the words of a line: a key without a number behind it throws.
abbrev pub read_words : List Field → List Text → Outcome (List Field)
read_words d [] = ok d
read_words d (key ∷ []) = throw out_of_range
read_words d (key ∷ word ∷ words) = from_hex word >>= λ val.
    throw_check runtime_error (not (has_key key d)) >> read_words ((key, val) ∷ d) words

-- The number of the word that older versions write, or else of the new word.
abbrev pub either_key : Text → Text → List Field → Outcome ℕ
either_key old new d = if has_key old d then at_key old d else at_key new d

abbrev pub max_uint64 : ℕ
max_uint64 = 2 ^ 64 - 1

-- A bad transid is reset.
abbrev pub reset_transids : CrawlState → CrawlState
reset_transids s =
    let t = record s {
      m_min_transid = if s.m_min_transid == max_uint64 then 0 else s.m_min_transid;
    } in
    record t {
      m_max_transid = if t.m_max_transid == max_uint64 then t.m_min_transid else t.m_max_transid;
    }

-- `now` is the time of the constructor of a BeesCrawlState.
abbrev pub loaded_state : ℕ → List Field → Outcome CrawlState
loaded_state now d = do
  a ← at_key (codes "root") d
  b ← at_key (codes "objectid") d
  c ← at_key (codes "offset") d
  e ← either_key (codes "gen_current") (codes "min_transid") d
  f ← either_key (codes "gen_next") (codes "max_transid") d
  g ← if has_key (codes "started") d then at_key (codes "started") d else ok now
  ok (
      reset_transids (record {
        m_root = a;
        m_objectid = b;
        m_offset = c;
        m_min_transid = e;
        m_max_transid = f;
        m_started = g;
      }))

unfoldable pub parse_line : ℕ → Text → Outcome CrawlState
parse_line now line = do d ← read_words [] (split space line); loaded_state now d

-- The loop over the lines.
abbrev pub load_lines : ℕ → List Text → Roots → Outcome Roots
load_lines now [] r = ok r
load_lines now (line ∷ lines) r = do
  s ← parse_line now line
  t ← insert_root s r
  load_lines now lines t

unfoldable pub state_load : ℕ → Text → Roots → Outcome Roots
state_load now crawl_data r = load_lines now (split newline crawl_data) r
