-- ===== src/Throttle/Window.antt =====
-- The throttling of `document.viewed` events in one process: app/audit/viewed_throttle.py. The clock,
-- the two settings as read from the environment, and the answer of the external store are
-- arguments; times are natural numbers that the source takes in seconds.
use mimir_backend.Prelude.{
  ℕ, ◌+◌, max, String, Bool, true, false, not, ◌&&◌, ◌||◌, List, [], ◌∷◌, ◌++◌, Option, none, some,
  ltb, ◌==◌, if◌then◌else◌, length, str_eq, truthy,
}

-- An actor and a document.
abbrev pub Key : Type 0
Key = String × String

-- The keys with their times, the least recently set first.
abbrev pub Cache : Type 0
Cache = List (Key × ℕ)

abbrev pub same_key : Key → Key → Bool
same_key a b = str_eq a.0 b.0 && str_eq a.1 b.1

-- `_cache.get(key)`
unfoldable pub get : Cache → Key → Option ℕ
get [] k = none
get ((j, ts) ∷ c) k = let rest = get c k in if same_key j k then some ts else rest

unfoldable pub without : Cache → Key → Cache
without [] k = []
without ((j, ts) ∷ c) k = let rest = without c k in if same_key j k then rest else (j, ts) ∷ rest

-- `_cache[key] = now_ts; _cache.move_to_end(key)`
abbrev pub set_last : Cache → Key → ℕ → Cache
set_last c k ts = without c k ++ (k, ts) ∷ []

-- `while len(_cache) > max_entries: _cache.popitem(last=False)`
unfoldable pub evict : ℕ → Cache → Cache
evict max_entries [] = []
evict max_entries (e ∷ c) =
    let rest = evict max_entries c in if ltb max_entries (length (e ∷ c)) then rest else e ∷ c

-- a setting that was read: the default where it is missing or no number, and at least the minimum
abbrev pub setting : ℕ → ℕ → Option ℕ → ℕ
setting default minimum none = default
setting default minimum (some value) = max minimum value

-- `_window_seconds`
abbrev pub window_seconds : Option ℕ → ℕ
window_seconds = setting 300 0

-- `_max_entries`
abbrev pub max_entries_of : Option ℕ → ℕ
max_entries_of = setting 5000 1

abbrev pub within_window : Option ℕ → ℕ → ℕ → Bool
within_window none now window = false
within_window (some ts) now window = ltb now (ts + window)

-- the part under the lock
unfoldable pub emit_local : Cache → ℕ → ℕ → Key → ℕ → Cache × Bool
emit_local c window max_entries k now =
    if within_window (get c k) now window
    then (c, false)
    else (evict max_entries (set_last c k now), true)

abbrev answered : Option Bool → Cache → Cache × Bool → Cache × Bool
answered (some emit) c rest = (c, emit)
answered none c rest = rest

-- `should_emit_view`
unfoldable pub should_emit_view :
    Cache → Option ℕ → Option ℕ → Option Bool → Option String → String → ℕ → Cache × Bool
should_emit_view c window_raw max_raw store none document_id now = (c, false)
should_emit_view c window_raw max_raw store (some actor_id) document_id now =
    if not (truthy (some actor_id)) || str_eq document_id ""
    then (c, false)
    else if window_seconds window_raw == 0
    then (c, true)
    else answered store c (
        emit_local c (window_seconds window_raw) (max_entries_of max_raw) (actor_id, document_id)
          now)
