-- ===== src/Inotify/Tests.antt =====
-- The theorems on inotify/inotify_dtree.c at concrete inputs: a kernel that numbers the watches in their
-- order, and a cache of three directories below `/a`.
mod Moves
use the_linux_programming_in.Prelude.{
  pos, ℕ, zero, suc, ◌+◌, ◌-◌, ◌*◌, ◌≤◌, ◌<◌, ◌≡◌, refl, sym, ap, ◌∙◌, ◌⊎◌, inl, inr, Bool, true,
  false, ◌&&◌, ◌||◌, Option, none, some, List, [], ◌∷◌, ◌++◌, length, arith, ltb, ◌==◌,
  if◌then◌else◌,
}
use mathlib.Core.Path.{subst}
use the_linux_programming_in.CString.{HasNoNull, strncpy, starts_with, char_at}
use the_linux_programming_in.Syscall.{ReadResult, got, eof, eintr, read_error}
use the_linux_programming_in.Inotify.Cache.{
  FilePath, Watch, path_max, wd_eq, find_watch, mark_cache_slot_empty, add_watch_to_cache,
  in_subtree, rewrite_cached_paths,
}
use the_linux_programming_in.Inotify.Cache.View.{watches, path_of, IsUnique}
use the_linux_programming_in.Inotify.Cache.Update.{
  path_of-add_watch_to_cache, path_of-mark_cache_slot_empty,
}
use the_linux_programming_in.Inotify.Cache.Rename.{
  IsUnder, in_subtree-IsUnder, IsUnder-in_subtree, rewrite_cached_paths_moves,
  rewrite_cached_paths_keeps,
}
use the_linux_programming_in.Inotify.Watcher.{Stat, Visit, added, Kernel, Watcher}
use the_linux_programming_in.Inotify.Tree.{zap_subtree}
use the_linux_programming_in.Inotify.Tree.Zap.{live_under, zap_subtree_counts, zap_subtree_keeps}
use the_linux_programming_in.Inotify.Events.{Mask, Event}
use the_linux_programming_in.Inotify.Events.Rename.{IsRename}
use the_linux_programming_in.Inotify.Invariant.{IsConsistent}
use the_linux_programming_in.Inotify.Invariant.Process.{
  IsWellFormed, process_next_inotify_event-IsConsistent,
}
use the_linux_programming_in.Inotify.Loop.{Read, bytes}
use the_linux_programming_in.Inotify.Loop.Layout.{IsFineRead, AllWellFormed}
use the_linux_programming_in.Inotify.Commands.{line_of, to_null, execute_command}
use the_linux_programming_in.Inotify.Commands.Keeps.{IsFineLine, execute_command-IsConsistent}
use the_linux_programming_in.Inotify.Main.{Ready, initial, start, main_loop}
use the_linux_programming_in.Inotify.Main.Runs.{start-IsConsistent, main_loop-IsConsistent}

-- A decimal number, as atoi() reads it
abbrev pub decimal : ℕ → List ℕ → ℕ
decimal acc [] = acc
decimal acc (c ∷ cs) = decimal (acc * 10 + (c - b'0')) cs

abbrev pub some_dir : FilePath → Stat
some_dir p = record { is_dir = true; st_ino = length p; st_dev = 1 }

-- Its state is the descriptor that the next watch gets.
abbrev pub numbering : Kernel
numbering = record {
  State = ℕ;
  inotify_init = λ s. (some 3, s);
  close = λ fd s. s;
  inotify_add_watch = λ fd p self s. (added s, suc s);
  inotify_rm_watch = λ fd wd s. (true, s);
  nftw = λ p s. (record { pathname = p; is_dir = true } ∷ [], s);
  lstat = λ p s. (some (some_dir p), s);
  write_lines = λ p ls s. (true, s);
  open_log = λ p s. (true, s);
  atoi = λ s. pos (decimal 0 s);
}

abbrev pub no_mask : Mask
no_mask = record {
  isdir = true;
  create = false;
  delete_self = false;
  move_self = false;
  moved_from = false;
  moved_to = false;
  ignored = false;
  q_overflow = false;
  unmount = false;
}

abbrev pub watch : ℕ → FilePath → Watch
watch wd path = record { wd = some wd; path = path }

-- `/a`, `/a/b` and `/a/bc`
abbrev pub dir_a : FilePath
dir_a = b'/' ∷ b'a' ∷ []

abbrev pub dir_ab : FilePath
dir_ab = dir_a ++ b'/' ∷ b'b' ∷ []

abbrev pub dir_abc : FilePath
dir_abc = dir_a ++ b'/' ∷ b'b' ∷ b'c' ∷ []

abbrev pub three : List Watch
three = watch 1 dir_a ∷ watch 2 dir_ab ∷ watch 4 dir_abc ∷ []

abbrev pub running : Watcher ℕ
running = record (initial 5) {
  cache = three;
  root_dir_paths = some dir_a ∷ [];
  root_dir_stat = some_dir dir_a ∷ [];
  has_log = false;
  inotify_fd = 3;
}

pub three-IsUnique : IsUnique three
unfolding watches
three-IsUnique n = ground arith

pub running-IsConsistent : IsConsistent running
running-IsConsistent = record {
  unique = three-IsUnique;
  counted = refl;
  watching = omega arith;
  quiet = refl;
  sized = omega arith;
}

-- A directory `d` is created in `/a`.
abbrev pub created : Event
created = record {
  wd = some 1;
  mask = record no_mask { create = true };
  cookie = 0;
  len = 16;
  name = b'd' ∷ [];
}

pub created-IsWellFormed : IsWellFormed created
created-IsWellFormed = record {
  create = λ e. ground arith;
  moved_to = λ e. refl;
  delete_self = λ e. refl;
  moved_from = λ e. refl;
  unmount = λ e. refl;
  move_self = λ e. refl;
}

-- read() gives the event where there is room for it.
abbrev pub one_event : Read
one_event n = if ltb n 32 then eintr else got (created ∷ [])

one_event-got : (n : ℕ) (es : List Event) → one_event n ≡ got es → (32 ≤ n) × (created ∷ [] ≡ es)
one_event-got n es h = ground arith

pub one_event-IsFineRead : IsFineRead one_event
one_event-IsFineRead = record {
  fits = λ n es h. let (room, e) = one_event-got n es h in omega (arith, ap bytes e);
  fine = λ n es h. subst AllWellFormed (one_event-got n es h).1 (created-IsWellFormed, tt);
}

-- The command "c"
abbrev pub check_line : ReadResult (List ℕ)
check_line = got (b'c' ∷ b'\n' ∷ [])

got-bytes : (a b : List ℕ) → got a ≡ got b → a ≡ b
got-bytes a b h = ground arith

pub check_line_fine :
    (bytes : List ℕ) → check_line ≡ got bytes → IsFineLine numbering.atoi (line_of bytes)
unfolding line_of to_null
check_line_fine bytes h =
    subst (λ bs. IsFineLine numbering.atoi (line_of bs)) (got-bytes (b'c' ∷ b'\n' ∷ []) bytes h)
      (record { complete = λ t. ground arith; no_dump = refl; no_noise = λ t. ground arith })

abbrev pub ready : List Ready
ready = record { stdin = some check_line; inotify = some (one_event, one_event ∷ []) } ∷ []
