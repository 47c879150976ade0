-- ===== src/Ladder/Examples.antt =====
-- Three contenders of two documents.
use onomancy.Prelude.{◌≡◌, refl}
use onomancy.Dnssec.Freshness.{Freshness}
use onomancy.Ladder.{Contender, Continuity, Verdict, compare}
use onomancy.Ladder.Order.{mirror, flip, compare-mirror, compare-fresh-stale, compare-left_trans}

abbrev newest : Contender
newest = record {
  document = 1;
  freshness = Freshness.fresh;
  key = record { window_end = 30; serial = 3; issued_at = 1 };
}

abbrev middle : Contender
middle = record {
  document = 2;
  freshness = Freshness.fresh;
  key = record { window_end = 20; serial = 2; issued_at = 9 };
}

abbrev oldest : Contender
oldest = record {
  document = 1;
  freshness = Freshness.fresh;
  key = record { window_end = 20; serial = 1; issued_at = 1 };
}

abbrev lapsed : Contender
lapsed = record newest { freshness = Freshness.stale }

compare-mirror_example :
    compare middle newest (mirror Continuity.left_newer)
    ≡ flip (compare newest middle Continuity.left_newer)
compare-mirror_example = compare-mirror newest middle Continuity.left_newer

compare-fresh-stale_example :
    (compare oldest lapsed Continuity.right_newer ≡ Verdict.left)
    × (compare lapsed oldest Continuity.right_newer ≡ Verdict.right)
compare-fresh-stale_example = compare-fresh-stale oldest lapsed Continuity.right_newer refl refl

compare-left_trans_example : compare newest oldest Continuity.silent ≡ Verdict.left
unfolding compare
compare-left_trans_example = compare-left_trans newest middle oldest refl refl
