-- ===== src/FileRange.antt =====
-- BeesFileId, BeesFileRange and BeesRangePair (src/bees.h, src/bees-types.cc). What stat says of an
-- open file is a parameter; a file descriptor is a number, or none where it is closed.
pub mod Pair
pub mod Overlap
mod Tests
use bees.Base.{
  ℕ, ◌+◌, ◌-◌, ◌*◌, ◌%◌, ◌^◌, min, max, Bool, true, false, not, ◌&&◌, ◌||◌, Option, none, some, ltb,
  leb, ◌==◌, if◌then◌else◌, Outcome, ok, throw, invalid_argument, runtime_error, ◌>>=◌, ◌>>◌,
  throw_check,
}

pub record FileId : Type 0 where
  pub root : ℕ
  pub ino : ℕ

unfoldable pub id_lt : FileId → FileId → Bool
id_lt a b = ltb a.ino b.ino || ((a.ino == b.ino) && ltb a.root b.root)

unfoldable pub id_eq : FileId → FileId → Bool
id_eq a b = (a.root == b.root) && (a.ino == b.ino)

unfoldable pub id_defined : FileId → Bool
id_defined a = not (a.root == 0) && not (a.ino == 0)

abbrev pub no_file : FileId
no_file = record { root = 0; ino = 0 }

-- m_file_size is 0 where it is not read yet.
pub record FileRange : Type 0 where
  pub m_fd : Option ℕ
  pub m_fid : FileId
  pub m_begin : ℕ
  pub m_end : ℕ
  pub m_file_size : ℕ

unfoldable pub empty : FileRange → Outcome Bool
empty r = do throw_check invalid_argument (leb r.m_begin r.m_end); ok (leb r.m_end r.m_begin)

unfoldable pub size : FileRange → Outcome ℕ
size r = do throw_check invalid_argument (leb r.m_begin r.m_end); ok (r.m_end - r.m_begin)

unfoldable pub grow_begin : ℕ → FileRange → Outcome FileRange
grow_begin delta r = do
  throw_check invalid_argument (ltb 0 delta)
  ok (record r { m_begin = r.m_begin - min delta r.m_begin })

unfoldable pub range_shrink_begin : ℕ → FileRange → Outcome FileRange
range_shrink_begin delta r = do
  throw_check invalid_argument (ltb 0 delta)
  throw_check invalid_argument (ltb (delta + r.m_begin) r.m_end)
  ok (record r { m_begin = r.m_begin + delta })

unfoldable pub range_shrink_end : ℕ → FileRange → Outcome FileRange
range_shrink_end delta r = do
  throw_check invalid_argument (ltb 0 delta)
  throw_check invalid_argument (leb delta r.m_end)
  ok (record r { m_end = r.m_end - delta })

-- Whether the descriptors are open and the same.
unfoldable pub same_fd : Option ℕ → Option ℕ → Bool
same_fd (some a) (some b) = a == b
same_fd (some a) none = false
same_fd none b = false

-- Whether the byte ranges meet: the one that starts first goes beyond the other's begin.
unfoldable pub bytes_meet : FileRange → FileRange → Bool
bytes_meet a b = if ltb b.m_begin a.m_begin then ltb a.m_begin b.m_end else ltb b.m_begin a.m_end

module _ (stat_id : ℕ → FileId) (stat_size : ℕ → ℕ) where
  -- The result that fid() leaves in m_fid.
  unfoldable pub fid : FileRange → FileId
  fid r =
      if id_defined r.m_fid then r.m_fid else elim r.m_fd [ none ↦ r.m_fid | some fd ↦ stat_id fd ]

  unfoldable pub is_same_file : FileRange → FileRange → Bool
  is_same_file a b = same_fd a.m_fd b.m_fd || id_eq (fid a) (fid b)

  unfoldable pub range_eq : FileRange → FileRange → Bool
  range_eq a b =
      if not (a.m_begin == b.m_begin) || not (a.m_end == b.m_end)
      then false
      else if same_fd a.m_fd b.m_fd
      then true
      else id_eq (fid a) (fid b)

  unfoldable pub overlaps : FileRange → FileRange → Bool
  overlaps a b = if bytes_meet a b then is_same_file a b else false

  -- The result that file_size() leaves in m_file_size; fstat throws on a closed descriptor.
  unfoldable pub file_size : FileRange → Outcome ℕ
  file_size r =
      if r.m_file_size == 0
      then elim r.m_fd [ none ↦ throw runtime_error | some fd ↦ ok (stat_size fd) ]
      else ok r.m_file_size

  unfoldable pub grow_end : ℕ → FileRange → Outcome FileRange
  grow_end delta r = do
    throw_check invalid_argument (ltb 0 delta)
    known ← file_size r
    let new_end = min (r.m_end + delta) known
    throw_check runtime_error (leb new_end known)
    ok (record r { m_end = new_end; m_file_size = known })

  unfoldable pub copy_closed : FileRange → FileRange
  copy_closed r = record r { m_fd = none; m_fid = fid r; m_file_size = 0 }

  -- The constructor of BeesRangePair, of the source and the destination.
  unfoldable pub new_pair : FileRange → FileRange → Outcome (FileRange × FileRange)
  new_pair src dst = do
    throw_check invalid_argument (not (overlaps src dst))
    a ← size src
    b ← size dst
    throw_check invalid_argument (a == b)
    ok (src, dst)

unfoldable pub pair_shrink_begin : ℕ → FileRange × FileRange → Outcome (FileRange × FileRange)
pair_shrink_begin delta p = do
  first ← range_shrink_begin delta p.0
  second ← range_shrink_begin delta p.1
  a ← size first
  b ← size second
  throw_check runtime_error (a == b)
  ok (first, second)

unfoldable pub pair_shrink_end : ℕ → FileRange × FileRange → Outcome (FileRange × FileRange)
pair_shrink_end delta p = do
  first ← range_shrink_end delta p.0
  second ← range_shrink_end delta p.1
  a ← size first
  b ← size second
  throw_check runtime_error (a == b)
  ok (first, second)
