-- ===== src/Recent/Groups.antt =====
-- types/recent.ts: the groups of `groupRecentFilesByTime`.
use mathlib.Core.List.{append_assoc, append-nil}
use wormhole.Recent.{
  RecentFileEntry, GroupedRecentFiles, one_day_ms, one_week_ms, push_to_group, group_from,
  group_recent_files_by_time,
}
use wormhole.Common.{
  ℕ, ◌-◌, ◌≤◌, ◌<◌, ◌≡◌, refl, sym, ◌∙◌, Bool, not, ◌&&◌, List, [], ◌∷◌, ◌++◌, arith, leb, filter,
  All, All-filter,
}

-- Newest first, as the list of recent files is kept.
abbrev pub NewestFirst : List RecentFileEntry → Type 0
NewestFirst [] = Unit
NewestFirst (x ∷ xs) = All (λ y. y.accessed_at ≤ x.accessed_at) xs × NewestFirst xs

abbrev pub from_time : ℕ → RecentFileEntry → Bool
from_time start e = leb start e.accessed_at

abbrev pub between : ℕ → ℕ → RecentFileEntry → Bool
between start end e = leb start e.accessed_at && not (leb end e.accessed_at)

-- The groups by their meaning: the entries of each span of time, in the order of the list.
abbrev pub spans : ℕ → List RecentFileEntry → GroupedRecentFiles
spans t xs = record {
  today = filter (from_time t) xs;
  yesterday = filter (between (t - one_day_ms) t) xs;
  this_week = filter (between (t - one_week_ms) (t - one_day_ms)) xs;
  earlier = filter (λ e. not (leb (t - one_week_ms) e.accessed_at)) xs;
}

abbrev join_groups : GroupedRecentFiles → GroupedRecentFiles → GroupedRecentFiles
join_groups g h = record {
  today = g.today ++ h.today;
  yesterday = g.yesterday ++ h.yesterday;
  this_week = g.this_week ++ h.this_week;
  earlier = g.earlier ++ h.earlier;
}

join_groups_nil : (g : GroupedRecentFiles) (t : ℕ) → join_groups g (spans t []) ≡ g
join_groups_nil g t = simp append-nil

push_step :
    (t : ℕ) (g : GroupedRecentFiles) (e : RecentFileEntry) (es : List RecentFileEntry)
    → join_groups (push_to_group t g e) (spans t es) ≡ join_groups g (spans t (e ∷ es))
unfolding push_to_group
push_step t g e es = ground (
  arith,
  append_assoc g.today (e ∷ []) (spans t es).today,
  append_assoc g.yesterday (e ∷ []) (spans t es).yesterday,
  append_assoc g.this_week (e ∷ []) (spans t es).this_week,
  append_assoc g.earlier (e ∷ []) (spans t es).earlier,
)

group_from-spans :
    (t : ℕ) (g : GroupedRecentFiles) (xs : List RecentFileEntry)
    → group_from t g xs ≡ join_groups g (spans t xs)
unfolding group_from
group_from-spans t g [] = sym (join_groups_nil g t)
group_from-spans t g (x ∷ xs) = group_from-spans t (push_to_group t g x) xs ∙ push_step t g x xs

-- The loop puts each entry into the group of its span of time, and keeps the order of the list.
group_recent_files_by_time-spans :
    (t : ℕ) (xs : List RecentFileEntry) → group_recent_files_by_time t xs ≡ spans t xs
unfolding group_recent_files_by_time
group_recent_files_by_time-spans t xs = group_from-spans t _ xs

older :
    (t b : ℕ) (xs : List RecentFileEntry)
    → b < t
    → All (λ y. y.accessed_at ≤ b) xs
    → (filter (from_time t) xs ≡ []) × (filter (λ e. not (from_time t e)) xs ≡ xs)
older t b [] h k = (refl, refl)
older t b (x ∷ xs) h k = ground (arith, older t b xs h k.1)

split_at_time :
    (t : ℕ) (xs : List RecentFileEntry)
    → NewestFirst xs
    → filter (from_time t) xs ++ filter (λ e. not (from_time t e)) xs ≡ xs
split_at_time t [] h = refl
split_at_time t (x ∷ xs) h = ground (arith, older t x.accessed_at xs, split_at_time t xs h.1)

pub filter-NewestFirst :
    (p : RecentFileEntry → Bool) (xs : List RecentFileEntry)
    → NewestFirst xs
    → NewestFirst (filter p xs)
filter-NewestFirst p [] h = tt
filter-NewestFirst p (x ∷ xs) h =
    ground
      (arith, filter-NewestFirst p xs h.1, All-filter (λ y. y.accessed_at ≤ x.accessed_at) p xs h.0)

filter-between :
    (s t : ℕ) (xs : List RecentFileEntry)
    → filter (between s t) xs ≡ filter (from_time s) (filter (λ e. not (from_time t e)) xs)
filter-between s t [] = refl
filter-between s t (x ∷ xs) = ground (arith, filter-between s t xs)

filter-before :
    (s t : ℕ) (xs : List RecentFileEntry)
    → s ≤ t
    → filter (λ e. not (from_time s e)) xs
      ≡ filter (λ e. not (from_time s e)) (filter (λ e. not (from_time t e)) xs)
filter-before s t [] h = refl
filter-before s t (x ∷ xs) h = ground (arith, filter-before s t xs h)

spans_join :
    (t y w : ℕ) (xs : List RecentFileEntry)
    → w ≤ y
    → y ≤ t
    → NewestFirst xs
    → filter (from_time t) xs
        ++ (filter (between y t) xs
            ++ (filter (between w y) xs ++ filter (λ e. not (from_time w e)) xs))
      ≡ xs
spans_join t y w xs h k v =
    rw (filter-between y t xs, filter-between w y xs, filter-before w y xs h)
      (rw (split_at_time w (before y) (filter-NewestFirst _ xs v), filter-before y t xs k)
        (rw (split_at_time y (before t) (filter-NewestFirst _ xs v)) (split_at_time t xs v)))
  where
    before : ℕ → List RecentFileEntry
    before s = filter (λ e. not (from_time s e)) xs

-- The groups one after another, as they are shown.
abbrev pub in_order : GroupedRecentFiles → List RecentFileEntry
in_order g = g.today ++ (g.yesterday ++ (g.this_week ++ g.earlier))

-- Of a list that is newest first, the groups one after another are the list: nothing is lost,
-- doubled or moved.
pub in_order-group_recent_files_by_time :
    (t : ℕ) (xs : List RecentFileEntry)
    → NewestFirst xs
    → in_order (group_recent_files_by_time t xs) ≡ xs
in_order-group_recent_files_by_time t xs v =
    rw (group_recent_files_by_time-spans t xs)
      (spans_join t (t - one_day_ms) (t - one_week_ms) xs (omega arith) (omega arith) v)
