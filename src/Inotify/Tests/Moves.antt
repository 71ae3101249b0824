-- ===== src/Inotify/Tests/Moves.antt =====
-- The theorems on the cache of inotify/inotify_dtree.c at concrete inputs: the three directories of the
-- parent, of which `/a/b` is renamed, zapped or closed.
use the_linux_programming_in.Inotify.Tests.{
  numbering, no_mask, dir_a, dir_ab, dir_abc, three, running, three-IsUnique,
}
use the_linux_programming_in.Prelude.{
  ◌≡◌, refl, inl, inr, true, none, some, [], ◌∷◌, ◌++◌, arith, ◌==◌, if◌then◌else◌,
}
use the_linux_programming_in.CString.{HasNoNull, strncpy}
use the_linux_programming_in.Inotify.Cache.{FilePath, path_max, find_watch, add_watch_to_cache}
use the_linux_programming_in.Inotify.Cache.View.{path_of}
use the_linux_programming_in.Inotify.Cache.Update.{path_of-add_watch_to_cache}
use the_linux_programming_in.Inotify.Cache.Rename.{IsUnder}
use the_linux_programming_in.Inotify.Watcher.Rules.{Returns}
use the_linux_programming_in.Inotify.Tree.{zap_subtree}
use the_linux_programming_in.Inotify.Tree.Zap.{zap_subtree_keeps}
use the_linux_programming_in.Inotify.Events.{Event}

abbrev name_b : FilePath
name_b = b'b' ∷ []

abbrev name_c : FilePath
name_c = b'c' ∷ []

-- `/a/b` becomes `/a/c`.
abbrev dir_ac : FilePath
dir_ac = dir_a ++ b'/' ∷ name_c

abbrev moved_from : Event
moved_from = record {
  wd = some 1;
  mask = record no_mask { moved_from = true };
  cookie = 7;
  len = 16;
  name = name_b;
}

abbrev moved_to : Event
moved_to = record {
  wd = some 1;
  mask = record no_mask { moved_to = true };
  cookie = 7;
  len = 16;
  name = name_c;
}

three-abc : path_of three 4 ≡ some dir_abc
unfolding path_of
three-abc = refl

abc-HasNoNull : HasNoNull dir_abc
abc-HasNoNull = (omega arith, (omega arith, (omega arith, (omega arith, (omega arith, tt)))))

-- `/a/bc` begins with `/a/b`, and is not below it.
abc-outside : ¬ IsUnder dir_ab dir_abc
abc-outside (inl e) = ground arith
abc-outside (inr (rest, e)) = ground arith

zap_subtree_keeps_example :
    Returns (λ r v. path_of v.cache 4 ≡ some dir_abc) (zap_subtree numbering 3 dir_ab running)
zap_subtree_keeps_example =
    zap_subtree_keeps numbering 3 dir_ab running 4 dir_abc abc-HasNoNull abc-outside three-abc

three-new : find_watch three (some 9) ≡ none
unfolding find_watch
three-new = refl

path_of-add_watch_to_cache_example :
    path_of (add_watch_to_cache three 9 dir_ac).1 9
    ≡ (if 9 == 9 then some (strncpy path_max dir_ac) else path_of three 9)
path_of-add_watch_to_cache_example =
    path_of-add_watch_to_cache three 9 dir_ac three-new three-IsUnique 9
