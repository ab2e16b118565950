-- ===== src/Diff/Operations.antt =====
-- Sequences of calls of the diff service on its caches, app/services/diff_service.py.
use mimir_backend.Prelude.{String, List, [], ◌∷◌}
use mimir_backend.Diff.Node.{DiffOptions}
use mimir_backend.Diff.Cache.{
  Store, Caches, compute_diff, compute_diff_with_previous, compute_summary_only,
  compute_summary_with_previous, invalidate_cache_for_document,
}

-- A call, with what the database holds when it is made: of `compute_diff`,
-- `compute_diff_with_previous`, `compute_summary_only`, `compute_summary_with_previous` and
-- `invalidate_cache_for_document`.
pub data Operation : Type 0 where
  diff : Store → DiffOptions → String → String → String → Operation
  diff_previous : Store → DiffOptions → String → String → Operation
  summary : Store → String → String → String → Operation
  summary_previous : Store → String → String → Operation
  invalidate : String → Operation

abbrev pub document_of : Operation → String
document_of (diff s o d a b) = d
document_of (diff_previous s o d v) = d
document_of (summary s d a b) = d
document_of (summary_previous s d v) = d
document_of (invalidate d) = d

-- The caches after a call; its result is dropped.
abbrev pub after : Operation → Caches → Caches
after (diff s o d a b) c = (compute_diff s o d a b c).1
after (diff_previous s o d v) c = (compute_diff_with_previous s o d v c).1
after (summary s d a b) c = (compute_summary_only s d a b c).1
after (summary_previous s d v) c = (compute_summary_with_previous s d v c).1
after (invalidate d) c = invalidate_cache_for_document d c

abbrev pub after_all : List Operation → Caches → Caches
after_all [] c = c
after_all (x ∷ xs) c = after_all xs (after x c)

-- The caches of a process that has just started.
abbrev pub no_caches : Caches
no_caches = record { diffs = []; summaries = [] }
