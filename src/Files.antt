-- ===== src/Files.antt =====
-- fs_utils.h, fs_utils.cpp, filelister.h and filelister.cpp: directories. What the file system answers is a parameter.
pub mod Scan
pub mod Units
pub mod Makedir
mod Tests
use ig_libs.Base.{
  ℕ, zero, suc, ◌+◌, ◌-◌, ◌*◌, ◌/◌, ◌%◌, ◌^◌, ℤ, pos, negsuc, Bool, true, false, ◌||◌, Option, none,
  some, List, [], ◌∷◌, ◌++◌, length, get_elem?, leb, ltb, ◌==◌, if◌then◌else◌,
}
use ig_libs.Base.Words.{add64, u64_mod}
use ig_libs.Text.{split, same_text}

-- `struct dirent`
pub record Entry : Type 0 where
  pub d_type : ℕ
  pub d_name : List ℕ

-- `m_dir`, none for NULL: the entries of the directory, and those that are still to be read.
pub record FileLister : Type 0 where
  pub m_dirpath : List ℕ
  pub m_dir : Option (List Entry × List Entry)

abbrev pub new_lister : List ℕ → FileLister
new_lister path = record { m_dirpath = path; m_dir = none }

pub close : FileLister → FileLister
close l = record l { m_dir = none }

abbrev pub opened : FileLister → Option (List Entry) → ℤ × FileLister
opened l none = (negsuc 0, l)
opened l (some entries) = (pos 0, record l { m_dir = some (entries, entries) })

-- `open()`, and `open(path)`.
pub open_again : (List ℕ → Option (List Entry)) → FileLister → ℤ × FileLister
unfolding close
open_again opendir l = opened (close l) (opendir l.m_dirpath)

pub open_path : (List ℕ → Option (List Entry)) → List ℕ → FileLister → ℤ × FileLister
open_path opendir path l = open_again opendir (record l { m_dirpath = path })

abbrev rewound : Option (List Entry × List Entry) → Option (List Entry × List Entry)
rewound none = none
rewound (some (entries, left)) = some (entries, entries)

pub start : FileLister → FileLister
start l = record l { m_dir = rewound l.m_dir }

-- DT_REG or DT_UNKNOWN.
abbrev pub is_file : Entry → Bool
is_file e = e.d_type == 8 || e.d_type == 0

-- `readdir` up to an entry that is a file: its name, and the entries behind it.
pub read_on : List Entry → Option (List ℕ × List Entry)
read_on [] = none
read_on (e ∷ left) = let more = read_on left in if is_file e then some (e.d_name, left) else more

-- The return value, `filename` and the lister.
abbrev pub entry_read :
    FileLister → List ℕ → List Entry → Option (List ℕ × List Entry) → Bool × List ℕ × FileLister
entry_read l filename entries none = (false, filename, record l { m_dir = some (entries, []) })
entry_read l filename entries (some (name, left)) =
    (true, name, record l { m_dir = some (entries, left) })

abbrev pub next_in :
    FileLister → List ℕ → Option (List Entry × List Entry) → Bool × List ℕ × FileLister
unfolding read_on
next_in l filename none = (false, filename, l)
next_in l filename (some (entries, left)) = entry_read l filename entries (read_on left)

pub next : FileLister → List ℕ → Bool × List ℕ × FileLister
next l filename = next_in l filename l.m_dir

-- The count and the size where the loop ends; the inner `none` is an early `return -1`, the outer one is no fuel.
abbrev Counted : Type 0
Counted = Option (Option (ℕ × ℕ))

module _ (stat : List ℕ → Option ℕ) (path : List ℕ) (max_count : ℕ) where
  abbrev pub sized :
      (FileLister → List ℕ → ℕ → ℕ → Counted) → FileLister → List ℕ → ℕ → ℕ → Option ℕ → Counted
  sized more l file_name count path_size none = some none
  sized more l file_name count path_size (some st_size) =
      let path_size' = add64 path_size st_size in
      if leb max_count count
      then some (some (count, path_size'))
      else more l file_name count path_size'

  abbrev pub scanned :
      (FileLister → List ℕ → ℕ → ℕ → Counted) → ℕ → ℕ → Bool × List ℕ × FileLister → Counted
  scanned more count path_size (false, file_name, l) = some (some (count, path_size))
  scanned more count path_size (true, file_name, l) =
      sized more l file_name ((count + 1) % 2 ^ 32) path_size (stat (path ++ (47 ∷ file_name)))

  pub count_loop : ℕ → FileLister → List ℕ → ℕ → ℕ → Counted
  unfolding next
  count_loop zero l file_name count path_size = none
  count_loop (suc fuel) l file_name count path_size =
      scanned (count_loop fuel) count path_size (next l file_name)

abbrev pub entries_left : Option (List Entry × List Entry) → ℕ
entries_left none = 0
entries_left (some (entries, left)) = length left

-- The return value, `file_count` and `total_size`.
abbrev pub files_counted : ℕ → ℕ → Counted → Option (ℤ × ℕ × ℕ)
files_counted file_count total_size none = none
files_counted file_count total_size (some none) = some (negsuc 0, file_count, total_size)
files_counted file_count total_size (some (some (count, path_size))) =
    some (pos 0, count, path_size)

-- What `open` returns is not looked at. Each round of the loop reads an entry or more, and the last finds none.
pub get_dir_files_size :
    (List ℕ → Option (List Entry)) → (List ℕ → Option ℕ) → List ℕ → ℕ → ℕ → ℕ → Option (ℤ × ℕ × ℕ)
unfolding open_again start
get_dir_files_size opendir stat path file_count total_size max_count =
    let (ret, l) = open_again opendir (new_lister path) in
    files_counted file_count total_size
      (count_loop stat path max_count (suc (entries_left (start l).m_dir)) (start l) [] 0 0)

-- `st_blksize` and `f_bavail`, where the calls succeed.
abbrev free_of : ℕ → Option ℕ → Option ℕ → ℤ × ℕ
free_of free_size (some st_blksize) (some f_bavail) =
    (pos 0, (st_blksize % 2 ^ 32) * f_bavail % u64_mod)
free_of free_size _ _ = (negsuc 0, free_size)

pub get_dir_free_size : (List ℕ → Option ℕ) → (List ℕ → Option ℕ) → List ℕ → ℕ → ℤ × ℕ
get_dir_free_size stat statfs [] free_size = (negsuc 0, free_size)
get_dir_free_size stat statfs (c ∷ path) free_size =
    free_of free_size (stat (c ∷ path)) (statfs (c ∷ path))

-- What `mkdir` answers; a refusal is any `errno` but EEXIST.
pub data Answer : Type 0 where
  made : Answer
  exists : Answer
  refused : Answer

module _ {W : Type 0} (mkdir : W → List ℕ → Answer × W) where
  abbrev pub made_or_not : (W → Bool × W) → Answer × W → Bool × W
  made_or_not rest (refused, w) = (false, w)
  made_or_not rest (made, w) = rest w
  made_or_not rest (exists, w) = rest w

  unfoldable pub make_all : List ℕ → List (List ℕ) → W → Bool × W
  make_all dir [] w = (true, w)
  make_all dir (subdir ∷ subdirs) w =
      let dir' = dir ++ (47 ∷ subdir) in made_or_not (make_all dir' subdirs) (mkdir w dir')

  -- The first piece says where to begin.
  abbrev pub from_first : List (List ℕ) → W → Bool × W
  from_first [] w = (false, w)
  from_first ([] ∷ subdirs) w = make_all [] subdirs w
  from_first ((c ∷ s) ∷ subdirs) w =
      if same_text (c ∷ s) (46 ∷ [])
      then make_all (46 ∷ []) subdirs w
      else if same_text (c ∷ s) (46 ∷ 46 ∷ [])
      then make_all (46 ∷ 46 ∷ []) subdirs w
      else make_all (46 ∷ []) ((c ∷ s) ∷ subdirs) w

  -- The Makefile builds with NDEBUG, so that the assertion on the path is not looked at.
  unfoldable pub makedir : List ℕ → W → Bool × W
  makedir path w = from_first (split path 47) w

-- " Bytes", " KB" and so on to " YB".
abbrev pub units : List (List ℕ)
units =
    (b' ' ∷ b'B' ∷ b'y' ∷ b't' ∷ b'e' ∷ b's' ∷ [])
    ∷ (b' ' ∷ b'K' ∷ b'B' ∷ [])
    ∷ (b' ' ∷ b'M' ∷ b'B' ∷ [])
    ∷ (b' ' ∷ b'G' ∷ b'B' ∷ [])
    ∷ (b' ' ∷ b'T' ∷ b'B' ∷ [])
    ∷ (b' ' ∷ b'P' ∷ b'B' ∷ [])
    ∷ (b' ' ∷ b'E' ∷ b'B' ∷ [])
    ∷ (b' ' ∷ b'Z' ∷ b'B' ∷ [])
    ∷ (b' ' ∷ b'Y' ∷ b'B' ∷ [])
    ∷ []

-- The conversion of a number to `double`, its division by 1024.0, and how a stream writes it with two digits.
module _ {F : Type 0} (of_u64 : ℕ → F) (divided : F → F) (written : F → List ℕ) where
  pub unit_loop : ℕ → ℕ → ℕ → F → Option (ℕ × F)
  unit_loop zero bytes count result = none
  unit_loop (suc fuel) bytes count result =
      let more = unit_loop fuel (bytes / 1024) (count + 1) (divided result) in
      if leb 1024 bytes
      then (if ltb (length units - 1) count then some (count, result) else more)
      else some (count, result)

  abbrev pub with_unit : F → Option (List ℕ) → Option (List ℕ)
  with_unit result none = none
  with_unit result (some u) = some (written result ++ u)

  abbrev pub unit_found : Option (ℕ × F) → Option (List ℕ)
  unit_found none = none
  unit_found (some (count, result)) = with_unit result (get_elem? units count)

  -- `none` where `unit` is read out of its bounds.
  pub convert_disk_size_unit : ℕ → Option (List ℕ)
  unfolding unit_loop
  convert_disk_size_unit bytes = unit_found (unit_loop 11 bytes 0 (of_u64 bytes))
