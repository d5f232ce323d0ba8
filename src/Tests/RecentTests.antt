-- ===== src/Tests/RecentTests.antt =====
-- Recent files on small inputs.
use wormhole.Sources.{share}
use wormhole.Recent.{
  RecentFileEntry, RecentFile, new_recent, add_recent_file, remove_recent_file, group_from,
  push_to_group, group_recent_files_by_time,
}
use wormhole.Recent.Window.{
  IsWindow, move_to_front, start, added, removed, add_recent_file-move_to_front, Run-IsWindow,
}
use wormhole.Recent.Groups.{NewestFirst, in_order, in_order-group_recent_files_by_time}
use wormhole.Common.{
  ℕ, ◌≤◌, ◌≡◌, refl, false, none, List, [], ◌∷◌, map, arith, eq_iff, All, Distinct,
}

abbrev song : RecentFile
song = record {
  path = "/m/a.mp3";
  name = "a.mp3";
  source_id = "s2";
  source_type = share;
  size = none;
  is_dir = false;
}

abbrev note : RecentFile
note = record song { path = "/m/b.txt"; name = "b.txt" }

-- Six hours before the eighth midnight after 1970 began, and 23 hours after it.
abbrev yesterday : ℕ
yesterday = 669600000

abbrev today : ℕ
today = 774000000

abbrev accessed : List RecentFileEntry
accessed = new_recent note "r2" today ∷ new_recent song "r1" yesterday ∷ []

moved : map (λ f. f.id) (add_recent_file song "r3" 774000001 accessed) ≡ "r1" ∷ "r2" ∷ []
unfolding add_recent_file
moved = refl

-- Midnight is at 8 days: one file of today, one of the day before.
grouped : group_recent_files_by_time 691200000 accessed ≡ record {
  today = new_recent note "r2" today ∷ [];
  yesterday = new_recent song "r1" yesterday ∷ [];
  this_week = [];
  earlier = [];
}
unfolding group_recent_files_by_time group_from push_to_group
grouped = refl

accessed-NewestFirst : NewestFirst accessed
accessed-NewestFirst = omega arith

accessed-Distinct : Distinct (λ f. f.path) accessed
accessed-Distinct = ((ground (arith, eq_iff "/m/a.mp3" "/m/b.txt"), tt), (tt, tt))

add_recent_file-move_to_front_example :
    add_recent_file song "r3" 774000001 accessed ≡ move_to_front song "r3" 774000001 accessed
add_recent_file-move_to_front_example =
    add_recent_file-move_to_front song "r3" 774000001 accessed accessed-Distinct

Run-IsWindow_example :
    IsWindow
      (remove_recent_file "r1" (add_recent_file song "r2" 9 (add_recent_file note "r1" 5 [])))
    × All
        (λ e. e.accessed_at ≤ 9)
        (remove_recent_file "r1" (add_recent_file song "r2" 9 (add_recent_file note "r1" 5 [])))
Run-IsWindow_example =
    Run-IsWindow
      (removed "r1" (added song "r2" 9 (added note "r1" 5 (start 0) (omega arith)) (omega arith)))

in_order-group_recent_files_by_time_example :
    in_order (group_recent_files_by_time 691200000 accessed) ≡ accessed
in_order-group_recent_files_by_time_example =
    in_order-group_recent_files_by_time 691200000 accessed accessed-NewestFirst
