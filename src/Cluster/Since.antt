-- ===== src/Cluster/Since.antt =====
-- RefreshMetadata: what happened since a call began.
use kafka.Base.{ℕ, ◌≤◌}
use kafka.Messages.MetadataResp.{MetadataResp}
use kafka.Cluster.Metadata.{Cluster}
use kafka.Cluster.Refresh.{Phase, not_called, waiting, fetching, returned}

-- A call that had not begun when `n` responses had come, where `f` have now.
abbrev Began : ℕ → ℕ → Phase → Type 0
Began n f not_called = n ≤ f
Began n f (waiting ctr1) = n ≤ ctr1
Began n f (fetching ctr1) = n ≤ ctr1
Began n f (returned ctr1 nil) = n ≤ ctr1
