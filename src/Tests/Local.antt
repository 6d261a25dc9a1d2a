-- ===== src/Tests/Local.antt =====
-- The unit tests of src/local/mod.rs.
use rbatis_cache.Common.{
  ℕ, ◌≡◌, refl, Option, none, some, [], ◌∷◌, Text, Bytes, ascii, from_secs, saturating_add,
  wrapping_add, as_u64, ok,
}
use rbatis_cache.DashMap
use rbatis_cache.Error.{CacheResult}
use rbatis_cache.Local
use rbatis_cache.Local.{LocalBackend}
use rbatis_cache.Local.Types.{
  LocalBackendConfig, default_config, with_max_entries_fifo, with_max_entries_lru,
  with_max_entries_lfu,
}
use rbatis_cache.Local.Fifo
use rbatis_cache.Local.Lfu
use rbatis_cache.Local.Lru

-- `put` and `get` of the tests, at the clock 0.
store : Text → ℕ → LocalBackend → LocalBackend
unfolding Local.put
store key payload b = (Local.put 0 key (payload ∷ []) (from_secs 60) b).1

fetch : Text → LocalBackend → LocalBackend
unfolding Local.get
fetch key b = (Local.get 0 key b).1

lookup : Text → LocalBackend → CacheResult (Option Bytes)
unfolding Local.get
lookup key b = (Local.get 0 key b).0

program : Unit {0}
unfolding store fetch lookup Local.with_config Fifo.pick_victim Lfu.pick_victim Lru.pick_victim
    Local.victim_key Local.evict_loop DashMap.get DashMap.insert DashMap.update DashMap.retain
    DashMap.update_all DashMap.min_by_key saturating_add wrapping_add as_u64 with_max_entries_fifo
    with_max_entries_lru with_max_entries_lfu
program = tt

abbrev a : Text
a = ascii "a"

abbrev b : Text
b = ascii "b"

abbrev c : Text
c = ascii "c"

abbrev d : Text
d = ascii "d"

three : LocalBackendConfig → LocalBackend
unfolding program
three config = store c 3 (store b 2 (store a 1 (Local.with_config config)))

fifo_evicts_oldest_inserted :
    (lookup a (store d 4 (three (with_max_entries_fifo 3 default_config))) ≡ ok none)
    × (lookup b (store d 4 (three (with_max_entries_fifo 3 default_config))) ≡ ok (some (2 ∷ [])))
unfolding program three Local.entry_key
fifo_evicts_oldest_inserted = (refl, refl)

lru_evicts_least_recently_used :
    (lookup b (store d 4 (fetch a (three (with_max_entries_lru 3 default_config)))) ≡ ok none)
    × (lookup a (store d 4 (fetch a (three (with_max_entries_lru 3 default_config))))
        ≡ ok (some (1 ∷ [])))
unfolding program three Local.entry_key
lru_evicts_least_recently_used = (refl, refl)

lfu_evicts_least_frequently_used :
    (lookup b
        (store d 4 (fetch c (fetch a (fetch a (three (with_max_entries_lfu 3 default_config))))))
      ≡ ok none)
    × (lookup c
          (store d 4 (fetch c (fetch a (fetch a (three (with_max_entries_lfu 3 default_config))))))
        ≡ ok (some (3 ∷ [])))
unfolding program three Local.entry_key
lfu_evicts_least_frequently_used = (refl, refl)
