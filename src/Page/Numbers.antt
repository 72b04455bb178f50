-- ===== src/Page/Numbers.antt =====
-- Numbers in their order, as the keys of small pages.
use cmu.Common.{ℕ, refl}
use cmu.Page.{Comparator, compare_ranks}

instance abbrev pub number_order : Comparator ℕ
number_order = record {
  compare = compare_ranks;
  rank = λ k. k;
  rank_injective = λ a b e. e;
  compare_rank = λ a b. refl;
}
