-- ===== src/Fs/Tests/Runs.antt =====
-- The calls on the state of the parent.
use weenix.Prelude.{ℕ, suc, ◌≡◌, refl, none, some, List, [], ◌∷◌, length, arith, returns, done}
use weenix.Fs.State.{Process}
use weenix.Fs.File.{
  get, put, set_fd, empty_from, get_empty_fd, do_close, close_file, do_dup, dup_found, dup_file,
}
use weenix.Fs.File.Refs.{Keeps, Opened}
use weenix.Fs.File.Descriptors.{Lowest, get_empty_fd-Lowest}
use weenix.Fs.File.Session
use weenix.Fs.File.Session.{FileCall, run_call, Session, run_call-Good, Session-Keeps}
use weenix.Fs.Namev.{skip_slashes, walk, last_slash, dir_part}
use weenix.Fs.Namev.Words.{words, walk_words, walk-words}
use weenix.Fs.Namev.Total.{Walkable}
use weenix.Fs.Tests.{disk, limits, start, limits-IsFget, disk-IsWrite}

start-Opened : Opened limits start
start-Opened = λ fd f b p. (1, refl)

-- A dup of descriptor 0, which takes the free descriptor 1, and a close of descriptor 2.
abbrev after_dup : Process ℕ
after_dup = set_fd (get start 5) 1 (some 5)

abbrev after_close : Process ℕ
after_close = set_fd (put after_dup 6) 2 none

dup_runs : run_call disk limits start (Session.dup 0) ≡ returns (done 1, after_dup)
unfolding run_call do_dup dup_found get_empty_fd empty_from dup_file
dup_runs = refl

close_runs : run_call disk limits after_dup (Session.close 2) ≡ returns (done 0, after_close)
unfolding run_call do_close close_file
close_runs = refl

Session-Keeps_example : Keeps limits start after_close × Opened limits after_close
Session-Keeps_example =
    Session-Keeps disk limits start after_close limits-IsFget disk-IsWrite start-Opened (
      Session.next (Session.close 2) (done 0)
        (Session.next (Session.dup 0) (done 1) Session.here (1, omega arith, refl) dup_runs) tt
        close_runs)

get_empty_fd-Lowest_example : Lowest start.files 0 4 (get_empty_fd limits start.files)
get_empty_fd-Lowest_example = get_empty_fd-Lowest limits start.files

-- The characters of "d//a", and of "/d/a".
abbrev relative : List ℕ
relative = 100 ∷ 47 ∷ 47 ∷ 97 ∷ []

abbrev absolute : List ℕ
absolute = 47 ∷ 100 ∷ 47 ∷ 97 ∷ []

walk-words_example :
    walk disk limits (suc (length (skip_slashes relative))) start 0 none (skip_slashes relative)
    ≡ walk_words disk limits start 0 none (words relative)
walk-words_example = walk-words disk limits start 0 relative

absolute-words : words (dir_part (last_slash absolute) absolute) ≡ (100 ∷ []) ∷ []
unfolding words last_slash
absolute-words = refl

absolute-Walkable :
    Walkable disk limits start.fs 0 (words (dir_part (last_slash absolute) absolute))
absolute-Walkable = rw absolute-words (refl, λ v e. tt)
