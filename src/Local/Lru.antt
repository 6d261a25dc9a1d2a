-- ===== src/Local/Lru.antt =====
-- src/local/lru.rs: the victim is the entry with the least `last_access_seq`.
use mathlib.Core.Option
use rbatis_cache.Common.{Option, Text, ltb}
use rbatis_cache.DashMap.{min_by_key}
use rbatis_cache.Local.Types.{Entry, Entries}

unfoldable pub pick_victim : Entries → Option Text
pick_victim entries =
    Option.map (λ x. x.0) (min_by_key ltb (λ (e : Entry). e.last_access_seq) entries)
