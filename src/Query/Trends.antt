-- ===== src/Query/Trends.antt =====
-- internal/data/query/service.go: the snapshots of a project since a time (`TrendSlice`). The
-- history store and the format of a snapshot's time are arguments.
use code_watch.Prelude.{
  ℕ, ◌-◌, String, ◌&&◌, Option, none, some, List, [], ◌∷◌, length, drop, last?, ltb, if◌then◌else◌,
}
use code_watch.Prelude.Int.{ℤ, pos, negsuc}

-- `TrendSlice`
pub record TrendSlice (S : Type 0) : Type 0 where
  pub since : String
  pub until : String
  pub scan_count : ℕ
  pub snapshots : List S

pub data TrendAnswer (S : Type 0) : Type 0 where
  sliced : TrendSlice S → TrendAnswer S
  history_unavailable load_failed : TrendAnswer S

module _ {S : Type 0} (stamp : S → String) where
  -- `snapshots[len(snapshots)-limit:]` where a limit above 0 is exceeded
  unfoldable pub newest : ℤ → List S → List S
  newest (pos n) snapshots =
      if ltb 0 n && ltb n (length snapshots)
      then drop (length snapshots - n) snapshots
      else snapshots
  newest (negsuc n) snapshots = snapshots

  -- The times of the first and the last snapshot.
  abbrev pub first_stamp : List S → String
  first_stamp [] = ""
  first_stamp (s ∷ ss) = stamp s

  abbrev pub last_stamp : List S → String
  last_stamp snapshots = elim (last? snapshots) [ none ↦ "" | some s ↦ stamp s ]

  abbrev pub slice_of : List S → TrendSlice S
  slice_of snapshots = record {
    since = first_stamp snapshots;
    until = last_stamp snapshots;
    scan_count = length snapshots;
    snapshots = snapshots;
  }

  -- `TrendSlice` with a context that is not cancelled, on a store that may be missing and whose
  -- `LoadSnapshots` for the project and the time may fail.
  unfoldable pub trend_slice : Option (Option (List S)) → ℤ → TrendAnswer S
  unfolding newest
  trend_slice none limit = history_unavailable
  trend_slice (some none) limit = load_failed
  trend_slice (some (some snapshots)) limit = sliced (slice_of (newest limit snapshots))
