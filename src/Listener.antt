-- ===== src/Listener.antt =====
-- src/listener.rs: the cache follows the transactions. An error of the cache is logged, and never
-- returned.
pub mod Laws
use rbatis_cache.Common.{
  ℕ, Bool, true, false, none, some, Text, Duration, Result, ok, id_key, if◌then◌else◌,
}
use rbatis_cache.Backend.{CacheBackend}
use rbatis_cache.DashMap
use rbatis_cache.External.{External}
use rbatis_cache.Shared.{State}
use rbatis_cache.Transactional

-- The events of rbatis.
pub data TransactionEventType : Type 0 where
  begin commit_success commit_failed rollback rollback_failed : TransactionEventType

pub record TransactionEvent : Type 0 where
  pub event_type : TransactionEventType
  pub tx_id : ℕ

pub record CacheTransactionListener : Type 0 where
  pub namespace : Text
  pub ttl : Duration
  pub defer_mode : Bool

module _ (x : External) (b : CacheBackend) (l : CacheTransactionListener) where
  abbrev forget : ℕ → State x b → State x b
  forget tx_id s = record s { tx_buffers = DashMap.remove tx_id s.tx_buffers }

  unfoldable pub on_begin : ℕ → State x b → State x b
  on_begin tx_id s =
      if l.defer_mode
      then record s { tx_buffers = DashMap.insert tx_id (Transactional.new l.ttl) s.tx_buffers }
      else s

  -- Defer: the buffer leaves the table and is flushed. Bypass: the generation is bumped.
  unfoldable pub on_commit : ℕ → State x b → State x b
  on_commit tx_id s =
      if l.defer_mode
      then (elim (DashMap.get tx_id s.tx_buffers) [
        | none ↦ s
        | some buf ↦ record (forget tx_id s) {
          backend = (Transactional.flush_to x b s.now buf s.backend).1;
        }
      ])
      else record s { backend = (b.bump_generation s.now l.namespace s.backend).1 }

  unfoldable pub handle : TransactionEventType → ℕ → State x b → State x b
  unfolding on_begin on_commit
  handle begin tx_id s = on_begin tx_id s
  handle commit_success tx_id s = on_commit tx_id s
  handle commit_failed tx_id s = forget tx_id s
  -- the buffer that is removed is emptied too: no one else holds it
  handle rollback tx_id s = forget tx_id s
  handle rollback_failed tx_id s = forget tx_id s

  unfoldable pub on_event : TransactionEvent → State x b → Result Text (Unit {0}) × State x b
  unfolding handle
  on_event event s = (ok tt, handle event.event_type event.tx_id s)
