-- ===== src/Roots/Tests.antt =====
-- The theorems on the crawls of three subvolumes.
use bees.Base.{
  ℕ, ◌-◌, ◌^◌, ◌<◌, ◌≡◌, throw, out_of_range, invalid_argument, runtime_error, refl, false, none,
  [], ◌∷◌, arith, ok, Returns,
}
use bees.Crawl.{CrawlState, Crawl, World, new_crawl, hold_state}
use bees.Roots.{Roots, find_crawl, transid_min, insert_new_crawl}
use bees.Roots.Maps.{Ascending}
use bees.Roots.Fresh.{expected, new_state, insert_new_crawl_lem}
use bees.Roots.Text.{Text, codes, space, newline, print, split, from_hex}
use bees.Roots.StateFile.{state_line, state_to_stream, parse_line, state_load}
use bees.Roots.Reload.{
  IsNumber, IsState, lacks-IsWord, started_states, insert_states, state_load-state_to_stream,
}
use bees.Roots.Saving.{
  save_copy, save_done, copied, nothing_to_save, none_yet, one_more, holds, write_crawl, roots_of,
  state_save-unmarked,
}

abbrev world : World
world = record {
  transid_count = 10;
  is_root_ro = λ root. false;
  lower_bound = λ tree min_transid x. ok none;
  time = 1000;
}

abbrev state : ℕ → ℕ → ℕ → CrawlState
state root a b = record {
  m_root = root;
  m_objectid = 300;
  m_offset = 4096;
  m_min_transid = a;
  m_max_transid = b;
  m_started = 900;
}

abbrev entry : ℕ → ℕ → ℕ → ℕ × Crawl
entry root a b = (root, new_crawl (state root a b))

-- The subvolume 300 is removed, and 400 is new.
abbrev roots : Roots
roots = record {
  m_root_crawl_map = entry 5 4 8 ∷ entry 256 3 8 ∷ entry 300 5 9 ∷ [];
  m_crawl_dirty = 2;
  m_crawl_clean = 1;
}

lowest_test : transid_min world roots ≡ ok 3
unfolding transid_min
lowest_test = refl

insert_new_crawl_lem_example : Returns (insert_new_crawl world (256 ∷ 400 ∷ []) roots) (λ s.
    Ascending s.m_root_crawl_map
    × (find_crawl 300 s.m_root_crawl_map
        ≡ expected (new_state world 3) (5 ∷ 256 ∷ 400 ∷ []) roots.m_root_crawl_map 300))
insert_new_crawl_lem_example =
    insert_new_crawl_lem world 3 300 (256 ∷ 400 ∷ []) roots
      (record { positive = omega arith; small = omega arith })
      ((omega arith, (omega arith, tt)), ((omega arith, tt), (tt, tt))) lowest_test

number_tests :
    (from_hex (codes "0") ≡ ok 0)
    × (from_hex (codes "0x1f") ≡ ok 31)
    × (from_hex (codes " 017z") ≡ ok 15)
    × (from_hex (codes "2026-11-26") ≡ ok 2026)
    × (from_hex (codes "-1") ≡ ok (2 ^ 64 - 1))
    × (from_hex (codes "18446744073709551616") ≡ throw out_of_range)
    × (from_hex (codes "x") ≡ throw invalid_argument)
unfolding from_hex
number_tests = (refl, refl, refl, refl, refl, refl, refl)

print_test : print 1203 ≡ codes "1203"
unfolding print
print_test = refl

split_test : split space (codes " a bc  d ") ≡ codes "a" ∷ codes "bc" ∷ codes "d" ∷ []
unfolding split
split_test = refl

-- strftime in the year 2026.
abbrev format_time : ℕ → Text
format_time t = codes "2026-11-26-20-05-00"

state_line_test :
    state_line format_time (state 256 3 8)
    ≡ codes
        "root 256 objectid 300 offset 4096 min_transid 3 max_transid 8 started 900 start_ts 2026-11-26-20-05-00"
unfolding print
state_line_test = refl

odd_test : parse_line 1000 (codes "root 256 objectid") ≡ throw out_of_range
unfolding parse_line split from_hex
odd_test = refl

twice_test : parse_line 1000 (codes "root 256 root 257") ≡ throw runtime_error
unfolding parse_line split from_hex
twice_test = refl

old_test :
    parse_line 1000
      (codes "root 256 objectid 1 offset 2 gen_current 18446744073709551615 gen_next 0x10")
    ≡ ok (record {
      m_root = 256;
      m_objectid = 1;
      m_offset = 2;
      m_min_transid = 0;
      m_max_transid = 16;
      m_started = 1000;
    })
unfolding parse_line split from_hex
old_test = refl

year_is : from_hex (codes "2026-11-26-20-05-00") ≡ ok 2026
unfolding from_hex
year_is = refl

year : IsNumber (codes "2026-11-26-20-05-00")
year = record {
  no_space = lacks-IsWord space (codes "2026-11-26-20-05-00") refl;
  no_newline = lacks-IsWord newline (codes "2026-11-26-20-05-00") refl;
  value = 2026;
  read = year_is;
}

entry-IsState :
    (root a b : ℕ) → root < 1000 → a < 1000 → b < 1000 → IsState format_time (state root a b)
entry-IsState root a b h k l = record {
  root_max = omega (arith, h);
  objectid_max = omega arith;
  offset_max = omega arith;
  min_transid_max = omega (arith, k);
  max_transid_max = omega (arith, l);
  started_max = omega arith;
  time = year;
}

abbrev no_roots : Roots
no_roots = record { m_root_crawl_map = []; m_crawl_dirty = 0; m_crawl_clean = 0 }

state_load-state_to_stream_example :
    state_load 1000 (state_to_stream format_time roots.m_root_crawl_map) no_roots
    ≡ insert_states (started_states roots.m_root_crawl_map) no_roots
state_load-state_to_stream_example =
    state_load-state_to_stream 1000 format_time roots.m_root_crawl_map no_roots (
      entry-IsState 5 4 8 (omega arith) (omega arith) (omega arith),
      (
        entry-IsState 256 3 8 (omega arith) (omega arith) (omega arith),
        (entry-IsState 300 5 9 (omega arith) (omega arith) (omega arith), tt),
      ),
    )

copy_test :
    save_copy format_time roots ≡ copied (state_to_stream format_time roots.m_root_crawl_map) 2
unfolding save_copy state_to_stream
copy_test = refl

-- While the file is written, a task of a file begins and holds its state.
abbrev held : Roots
held = write_crawl 256 (hold_state (state 256 3 8) (new_crawl (state 256 3 8))) roots

clean_test : save_copy format_time (save_done 2 held) ≡ nothing_to_save
unfolding save_copy save_done
clean_test = refl

state_save-unmarked_example :
    (◌≡◌ {A = ℕ} 0 0) × (roots_of held.m_root_crawl_map ≡ roots_of roots.m_root_crawl_map)
state_save-unmarked_example =
    state_save-unmarked format_time format_time 0 roots held
      (state_to_stream format_time roots.m_root_crawl_map) 2 copy_test
      (one_more 0 0 roots roots held (none_yet roots)
        (holds 256 (state 256 3 8) (new_crawl (state 256 3 8)) roots refl))
      clean_test
