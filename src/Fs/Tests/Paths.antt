-- ===== src/Fs/Tests/Paths.antt =====
-- The calls on path names, on the state of the parent.
use weenix.Prelude.{ℕ, ◌≡◌, refl, true, false, some, List, [], ◌∷◌, returns, Ret}
use weenix.Fs.State.{Process, IsTree}
use weenix.Fs.File.{get_empty_fd, empty_from}
use weenix.Fs.Namev.{last_slash, dir_part}
use weenix.Fs.Namev.Words.{words}
use weenix.Fs.Namev.Total.{IsPath}
use weenix.Fs.Path.{OpenFlags, do_open, do_chdir}
use weenix.Fs.Path.Refs.{Even}
use weenix.Fs.Path.Total
use weenix.Fs.Path.Total.{PathCall, run_path, run_path_lem}
use weenix.Fs.Path.Open.{Opens, do_open_lem}
use weenix.Fs.Path.Chdir.{Moves, do_chdir-Moves}
use weenix.Fs.Tests.{disk, limits, start}

disk-IsTree : IsTree disk
disk-IsTree = record {
  create = λ w d name h. h;
  mkdir = λ w d name h. h;
  unlink = λ w d name h. h;
  rmdir = λ w d h. h;
  stat = λ w v. refl;
}

-- The characters of "/d/a".
abbrev file_path : List ℕ
file_path = 47 ∷ 100 ∷ 47 ∷ 97 ∷ []

file_path-words : words (dir_part (last_slash file_path) file_path) ≡ (100 ∷ []) ∷ []
unfolding words last_slash
file_path-words = refl

file_path-IsPath : IsPath disk limits start file_path
unfolding last_slash
file_path-IsPath = record {
  from = 0;
  starts = refl;
  searched = refl;
  walkable = rw file_path-words (refl, λ v e. tt);
  first = 97;
  more = [];
  named = refl;
}

-- mkdir finds the file, which has the name.
run_path_example :
    (x : Ret ℕ × Process ℕ) × (run_path disk limits start file_path Total.mkdir ≡ returns x)
    × Even start x
run_path_example = run_path_lem disk limits start file_path Total.mkdir disk-IsTree file_path-IsPath

abbrev read_write : OpenFlags
read_write = record { wronly = false; rdwr = true; append = false; creat = true; rest = false }

lowest : get_empty_fd limits start.files ≡ some 1
unfolding get_empty_fd empty_from
lowest = refl

do_open_example :
    (y : Ret ℕ × Process ℕ) × (do_open disk limits start file_path read_write ≡ returns y)
    × Opens limits start y
do_open_example =
    do_open_lem limits disk start file_path read_write 1 9 disk-IsTree file_path-IsPath lowest refl

-- The working directory stays: the path leads to the regular file.
do_chdir-Moves_example :
    (y : Ret ℕ × Process ℕ) × (do_chdir disk limits start file_path ≡ returns y)
    × Moves disk limits start 2 y
do_chdir-Moves_example =
    do_chdir-Moves disk limits start file_path 2 disk-IsTree file_path-IsPath refl
