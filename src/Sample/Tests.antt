-- ===== src/Sample/Tests.antt =====
-- A sample of two and a table of three.
pub mod Insertion
pub mod Percentiles
use slg.Base.{ℕ, ◌<◌, ◌≤◌, ◌≡◌, List, [], ◌∷◌, true, take, get_or, arith}
use slg.Base.Outcome.{ok, stop}
use slg.Sample.{
  Sample, assertion, init_stats_sample_lf, insert_lf, t_min_search_ul, t_max_search_ul,
}
use slg.Sample.Fill.{insert_all, insert_all-contents}
use slg.Sample.Search.{t_min_max-bounds}

insert_all-contents_example :
    (start : Sample ℕ) × (after : Sample ℕ) × (init_stats_sample_lf 0 true 2 ≡ ok start)
    × (insert_all start (7 ∷ 5 ∷ []) ≡ ok after)
    × (take after.nb_elem after.s ≡ 7 ∷ 5 ∷ [])
    × (insert_lf after 9 ≡ stop assertion)
insert_all-contents_example = insert_all-contents 0 9 (7 ∷ 5 ∷ [])

abbrev three : List ℕ
three = 4 ∷ 2 ∷ 8 ∷ []

t_min_max-bounds_example :
    ((v : ℕ) × (t_min_search_ul three 3 ≡ ok v)
      × ((j : ℕ) → j < 3 → v ≤ get_or three j 0)
      × ((j : ℕ) × (j < 3) × (get_or three j 0 ≡ v)))
    × ((v : ℕ) × (t_max_search_ul three 3 ≡ ok v)
        × ((j : ℕ) → j < 3 → get_or three j 0 ≤ v)
        × ((j : ℕ) × (j < 3) × (get_or three j 0 ≡ v)))
t_min_max-bounds_example = t_min_max-bounds three 3 (omega arith) (omega arith)
